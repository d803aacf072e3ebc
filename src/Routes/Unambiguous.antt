-- ===== src/Routes/Unambiguous.antt =====
-- No request matches two routes.
use mathlib.Core.Path.{subst₂}
use z_apply_backend.Base.{
  subst, sym, String, ◌≡◌, refl, ◌≤◌, Bool, true, false, not, ◌&&◌, some, List, [], ◌∷◌, length,
  select, find?, ◌++◌, any, str_eq, arith, eq_iff, Bool-cases, inl, inr,
}
use z_apply_backend.Config.{Settings}
use z_apply_backend.Routes.{
  Method, Segment, lit, param, Route, included, include_all, routers, FastApi, create_app,
  same_method, fits, matches, runs_router, providers_router, events_router, human_router,
  browser_router, artifacts_router, diagnostics_router,
}

-- Some path may fit both.
abbrev overlap : List Segment → List Segment → Bool
overlap [] [] = true
overlap (lit s ∷ p) (lit t ∷ q) = str_eq s t && overlap p q
overlap (lit s ∷ p) (param t ∷ q) = overlap p q
overlap (param s ∷ p) (lit t ∷ q) = overlap p q
overlap (param s ∷ p) (param t ∷ q) = overlap p q
overlap [] (t ∷ q) = false
overlap (s ∷ p) [] = false

abbrev clash : Route → Route → Bool
clash r s = same_method r.method s.method && overlap r.path s.path

abbrev no_clash : List Route → Bool
no_clash [] = true
no_clash (r ∷ routes) = not (any (clash r) routes) && no_clash routes

str_eq-both : (s t part : String) → str_eq s part ≡ true → str_eq t part ≡ true → str_eq s t ≡ true
str_eq-both s t part h k = ground (arith, eq_iff s part, eq_iff t part, eq_iff s t)

fits-overlap :
    (p q : List Segment) (parts : List String)
    → fits p parts ≡ true
    → fits q parts ≡ true
    → overlap p q ≡ true
fits-overlap [] [] parts h k = refl
fits-overlap [] (lit t ∷ q) [] h k = cc
fits-overlap [] (param t ∷ q) [] h k = cc
fits-overlap [] (t ∷ q) (part ∷ parts) h k = cc
fits-overlap (lit s ∷ p) [] [] h k = cc
fits-overlap (param s ∷ p) [] [] h k = cc
fits-overlap (s ∷ p) [] (part ∷ parts) h k = cc
fits-overlap (lit s ∷ p) (lit t ∷ q) (part ∷ parts) h k =
    ground (arith, str_eq-both s t part, fits-overlap p q parts)
fits-overlap (lit s ∷ p) (param t ∷ q) (part ∷ parts) h k = ground (arith, fits-overlap p q parts)
fits-overlap (param s ∷ p) (lit t ∷ q) (part ∷ parts) h k = ground (arith, fits-overlap p q parts)
fits-overlap (param s ∷ p) (param t ∷ q) (part ∷ parts) h k = ground (arith, fits-overlap p q parts)
fits-overlap _ _ _ h k = cc

same_method-eq : (a m : Method) → same_method a m ≡ true → a ≡ m
same_method-eq Method.get Method.get h = refl
same_method-eq Method.post Method.post h = refl
same_method-eq Method.delete Method.delete h = refl
same_method-eq Method.websocket Method.websocket h = refl
same_method-eq _ _ h = cc

same_method_refl : (m : Method) → same_method m m ≡ true
same_method_refl Method.get = refl
same_method_refl Method.post = refl
same_method_refl Method.delete = refl
same_method_refl Method.websocket = refl

module _ (method : Method) (parts : List String) where
  abbrev hit : Route → Bool
  hit = matches method parts

  hit-clash : (r s : Route) → hit r ≡ true → hit s ≡ true → clash r s ≡ true
  hit-clash r s h k =
      let a : r.method ≡ method = same_method-eq r.method method (ground arith) in
      let b : s.method ≡ method = same_method-eq s.method method (ground arith) in
      let same : same_method r.method s.method ≡ true =
        subst₂ (λ m n. same_method m n ≡ true) (sym a) (sym b) (same_method_refl method) in
      let over : overlap r.path s.path ≡ true =
        fits-overlap r.path s.path parts (ground arith) (ground arith) in
      ground arith

  clashes :
      (r s : Route) (routes : List Route)
      → clash r s ≡ true
      → any (clash r) (s ∷ routes) ≡ false
      → ⊥
  clashes r s routes c free = ground arith

  select-none :
      (r : Route) (routes : List Route)
      → hit r ≡ true
      → any (clash r) routes ≡ false
      → length (select hit routes) ≡ 0
  select-none r [] h free = refl
  select-none r (s ∷ routes) h free = elim (Bool-cases (hit s)) [
    | inl yes' ↦ absurd (clashes r s routes (hit-clash r s h yes') free)
    | inr no' ↦ ground (arith, select-none r routes h)
  ]

  select-one : (routes : List Route) → no_clash routes ≡ true → length (select hit routes) ≤ 1
  select-one [] free = omega arith
  select-one (r ∷ routes) free = elim (Bool-cases (hit r)) [
    | inl yes' ↦ ground (arith, select-none r routes yes')
    | inr no' ↦ ground (arith, select-one routes)
  ]

routers-no_clash : no_clash (include_all routers) ≡ true
unfolding include_all included runs_router providers_router events_router human_router
    browser_router artifacts_router diagnostics_router
routers-no_clash = refl

-- At most one of the routes of the application matches a request, whatever its method and path are.
create_app-select :
    (s : Settings) (app : FastApi) (method : Method) (parts : List String)
    → create_app (some s) ≡ some app
    → length (select (matches method parts) app.routes) ≤ 1
unfolding create_app
create_app-select s app method parts e =
    let listed : include_all routers ≡ app.routes = ground arith in
    subst (λ routes. length (select (matches method parts) routes) ≤ 1) listed
      (select-one method parts (include_all routers) routers-no_clash)

module _ {A : Type 0} (p : A → Bool) where
  select-member :
      (before : List A) (x : A) (after : List A)
      → p x ≡ true
      → 1 ≤ length (select p (before ++ x ∷ after))
  select-member [] x after h = ground arith
  select-member (b ∷ before) x after h = ground (arith, select-member before x after h)

  find?-only :
      (before : List A) (x : A) (after : List A)
      → p x ≡ true
      → length (select p (before ++ x ∷ after)) ≤ 1
      → find? p (before ++ x ∷ after) ≡ some x
  find?-only [] x after h one = ground arith
  find?-only (b ∷ before) x after h one =
      ground (arith, select-member before x after h, find?-only before x after h)

-- No handler is shadowed by another: a request that matches a route of the application gets that
-- route as the first one that matches, wherever the route stands among the others.
pub create_app-matches :
    (s : Settings) (app : FastApi) (method : Method) (parts : List String) (before : List Route)
    (r : Route) (after : List Route)
    → create_app (some s) ≡ some app
    → app.routes ≡ before ++ r ∷ after
    → matches method parts r ≡ true
    → find? (matches method parts) app.routes ≡ some r
create_app-matches s app method parts before r after e at h =
    subst (λ routes. find? (matches method parts) routes ≡ some r) (sym at)
      (find?-only (matches method parts) before r after h (
        subst (λ routes. length (select (matches method parts) routes) ≤ 1) at
          (create_app-select s app method parts e)))
