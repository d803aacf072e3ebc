-- ===== src/Vnc/Granted.antt =====
-- Which sockets are bridged, in every interleaving.
use z_apply_backend.Base.{
  ℕ, String, ◌≡◌, refl, sym, ap, ◌∙◌, subst, ◌⊎◌, inl, inr, Bool, true, false, not, ◌&&◌, Option,
  none, some, List, [], ◌∷◌, ◌==◌, arith, eq_iff, any, select, Bool-cases, ==_iff,
}
use z_apply_backend.Vnc.{
  VncAccess, VncBridge, init, issue_access, compare_digest, Phase, absent, dialing, accepting,
  bridging, finished, compared, checked, dialed, connect, discard, close,
}
use z_apply_backend.Vnc.System.{
  World, start, put, after_issue, after_check, after_close, Step, issue, check, dial, accept, end,
  stop, Reach, here, next,
}

abbrev pub In : VncAccess → List VncAccess → Type 0
In a [] = ⊥
In a (b ∷ bs) = (a ≡ b) ⊎ In a bs

-- A socket that passed the test presented the token of an access that was handed out.
abbrev pub Granted : List VncAccess → String → Phase → Type 0
Granted issued token (dialing a) = (a.token ≡ token) × In a issued
Granted issued token (accepting a) = (a.token ≡ token) × In a issued
Granted issued token (bridging a) = (a.token ≡ token) × In a issued
Granted issued token _ = Unit

abbrev pub is_bridging : Phase → Bool
is_bridging (bridging a) = true
is_bridging _ = false

abbrev listed : ℕ → VncBridge → Bool
listed i b = any (λ j. j == i) b.connections

abbrev Current : List VncAccess → Option VncAccess → Type 0
Current issued none = Unit
Current issued (some a) = In a issued

pub record Inv (w : World) : Type 0 where
  pub granted : (i : ℕ) → Granted w.issued (w.presented i) (w.phase i)
  pub current : Current w.issued w.bridge.access
  pub connected : (i : ℕ) → listed i w.bridge ≡ is_bridging (w.phase i)

compare_digest-eq : (a b : String) → compare_digest a b ≡ some true → a ≡ b
unfolding compare_digest
compare_digest-eq a b e = ground (arith, eq_iff a b)

checked-Granted :
    (issued : List VncAccess) (access : Option VncAccess) (token : String)
    → Current issued access
    → Granted issued token (checked access token)
unfolding checked compared
checked-Granted issued none token c = tt
checked-Granted issued (some a) token c = settle (compare_digest a.token token) refl
  where
    settle :
        (r : Option Bool) → compare_digest a.token token ≡ r → Granted issued token (compared a r)
    settle none e = tt
    settle (some true) e = (compare_digest-eq a.token token e, c)
    settle (some false) e = tt

checked-is_bridging :
    (access : Option VncAccess) (token : String) → is_bridging (checked access token) ≡ false
unfolding checked compared
checked-is_bridging none token = refl
checked-is_bridging (some a) token = ground arith

In-later :
    (a : VncAccess) (issued : List VncAccess) (token : String) (p : Phase)
    → Granted issued token p
    → Granted (a ∷ issued) token p
In-later a issued token (dialing b) g = (g.0, inr g.1)
In-later a issued token (accepting b) g = (g.0, inr g.1)
In-later a issued token (bridging b) g = (g.0, inr g.1)
In-later a issued token absent g = tt
In-later a issued token _ g = tt

-- One socket moves on; what it presented may be set with it.
Granted-put :
    (issued : List VncAccess) (presented : ℕ → String) (phase : ℕ → Phase) (i : ℕ) (token : String)
    (p : Phase)
    → ((j : ℕ) → Granted issued (presented j) (phase j))
    → Granted issued token p
    → (j : ℕ) → Granted issued (put presented i token j) (put phase i p j)
Granted-put issued presented phase i token p h g j = elim (Bool-cases (j == i)) [
  | inl same ↦ rw same g
  | inr other ↦ rw other (h j)
]

Granted-move :
    (issued : List VncAccess) (presented : ℕ → String) (phase : ℕ → Phase) (i : ℕ) (p : Phase)
    → ((j : ℕ) → Granted issued (presented j) (phase j))
    → Granted issued (presented i) p
    → (j : ℕ) → Granted issued (presented j) (put phase i p j)
Granted-move issued presented phase i p h g j = elim (Bool-cases (j == i)) [
  | inl same ↦ rw same (subst (λ k. Granted issued (presented k) p) (sym ((==_iff j i).0 same)) g)
  | inr other ↦ rw other (h j)
]

is_bridging-put :
    (b : VncBridge) (phase : ℕ → Phase) (i : ℕ) (p : Phase)
    → ((j : ℕ) → listed j b ≡ is_bridging (phase j))
    → listed i b ≡ is_bridging p
    → (j : ℕ) → listed j b ≡ is_bridging (put phase i p j)
is_bridging-put b phase i p h e j = elim (Bool-cases (j == i)) [
  | inl same ↦ rw same (ap (λ k. listed k b) ((==_iff j i).0 same) ∙ e)
  | inr other ↦ rw other (h j)
]

listed-discard :
    (i j : ℕ) (xs : List ℕ)
    → any (λ k. k == j) (select (λ k. not (k == i)) xs) ≡ (not (j == i) && any (λ k. k == j) xs)
listed-discard i j [] = ground arith
listed-discard i j (x ∷ xs) = ground (arith, listed-discard i j xs)

dialed-Granted :
    (issued : List VncAccess) (token : String) (a : VncAccess) (up : Bool)
    → Granted issued token (dialing a)
    → Granted issued token (dialed a up)
unfolding dialed
dialed-Granted issued token a true g = g
dialed-Granted issued token a false g = tt

dialed-is_bridging : (a : VncAccess) (up : Bool) → is_bridging (dialed a up) ≡ false
unfolding dialed
dialed-is_bridging a true = refl
dialed-is_bridging a false = refl

Step-Inv : {w u : World} → Step w u → Inv w → Inv u
unfolding after_issue after_check after_close issue_access close connect discard
Step-Inv {w} (issue token host port) inv = record {
  granted = λ i. In-later _ w.issued (w.presented i) (w.phase i) (inv.granted i);
  current = inl refl;
  connected = inv.connected;
}
Step-Inv {w} (check i token new) inv = record {
  granted =
      Granted-put w.issued w.presented w.phase i token (checked w.bridge.access token) inv.granted
        (checked-Granted w.issued w.bridge.access token inv.current);
  current = inv.current;
  connected =
      is_bridging-put w.bridge w.phase i (checked w.bridge.access token) inv.connected
        (inv.connected i ∙ ap is_bridging new ∙ sym (checked-is_bridging w.bridge.access token));
}
Step-Inv {w} (dial i a up at) inv = record {
  granted = Granted-move w.issued w.presented w.phase i (dialed a up) inv.granted (
      dialed-Granted w.issued (w.presented i) a up
        (subst (Granted w.issued (w.presented i)) at (inv.granted i)));
  current = inv.current;
  connected =
      is_bridging-put w.bridge w.phase i (dialed a up) inv.connected
        (inv.connected i ∙ ap is_bridging at ∙ sym (dialed-is_bridging a up));
}
Step-Inv {w} (accept i a at) inv = record {
  granted =
      Granted-move w.issued w.presented w.phase i (bridging a) inv.granted
        (subst (Granted w.issued (w.presented i)) at (inv.granted i));
  current = inv.current;
  connected = λ j. ground (arith, inv.connected j);
}
Step-Inv {w} (end i a at) inv = record {
  granted = Granted-move w.issued w.presented w.phase i finished inv.granted tt;
  current = inv.current;
  connected = λ j. listed-discard i j w.bridge.connections ∙ ground (arith, inv.connected j);
}
Step-Inv {w} stop inv = record { granted = inv.granted; current = tt; connected = inv.connected }

start-Inv : Inv start
unfolding start init
start-Inv = record { granted = λ i. tt; current = tt; connected = λ i. refl }

pub Reach-Inv : {w : World} → Reach w → Inv w
Reach-Inv here = start-Inv
Reach-Inv (next r st) = Step-Inv st (Reach-Inv r)

-- In every state that the sockets, `issue_access` and `close` can reach in any interleaving, a
-- socket is bridged only if it presented the token of an access that was handed out, and it is
-- bridged to the endpoint of that access. The connections are exactly the sockets that are bridged.
pub bridged-Granted :
    {w : World} (i : ℕ) (a : VncAccess)
    → Reach w
    → (w.phase i ≡ bridging a → (w.presented i ≡ a.token) × In a w.issued)
      × (any (λ j. j == i) w.bridge.connections ≡ is_bridging (w.phase i))
bridged-Granted {w} i a r =
    let inv = Reach-Inv r in
    (
      λ at. let g = subst (Granted w.issued (w.presented i)) at (inv.granted i) in (sym g.0, g.1),
      inv.connected i,
    )
