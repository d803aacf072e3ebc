-- ===== src/App/Driver.antt =====
-- app.py: _force_kill_browser_driver, over what the scan of /proc gives.
use z_apply_backend.Base.{
  ℕ, Bool, true, false, ◌&&◌, ◌||◌, Option, none, some, List, [], ◌∷◌, ◌++◌, ◌==◌, leb, any, take,
  codes, if◌then◌else◌,
}

-- How `os.kill` ends: the process gets the signal, it is gone (ProcessLookupError), or another
-- OSError is raised, such as a PermissionError.
pub data Kill : Type 0 where
  signalled gone denied : Kill

-- An entry: its name, in code points, the bytes of its cmdline, if they can be read, and how a kill
-- of the process ends.
pub record ProcEntry : Type 0 where
  pub name : List ℕ
  pub cmdline : Option (List ℕ)
  pub kill : Kill

-- The names in /proc are ASCII.
unfoldable pub is_digit : ℕ → Bool
is_digit c = leb 48 c && leb c 57

unfoldable pub all_digits : List ℕ → Bool
unfolding is_digit
all_digits [] = true
all_digits (c ∷ text) = is_digit c && all_digits text

-- `name.isdigit()`
unfoldable pub isdigit : List ℕ → Bool
unfolding all_digits
isdigit [] = false
isdigit (c ∷ text) = all_digits (c ∷ text)

-- `.replace(b"\0", b" ")`
unfoldable pub spaced_out : List ℕ → List ℕ
spaced_out [] = []
spaced_out (b ∷ bytes) = (if b == 0 then 32 else b) ∷ spaced_out bytes

unfoldable pub begins_with : List ℕ → List ℕ → Bool
begins_with [] text = true
begins_with (c ∷ marker) [] = false
begins_with (c ∷ marker) (d ∷ text) = (c == d) && begins_with marker text

-- `marker in cmdline`
unfoldable pub occurs : List ℕ → List ℕ → Bool
unfolding begins_with
occurs marker [] = begins_with marker []
occurs marker (c ∷ text) = begins_with marker (c ∷ text) || occurs marker text

abbrev pub markers : List (List ℕ)
markers = codes "playwright/driver/package/cli.js run-driver" ∷ codes "camoufox-bin" ∷ []

-- `f"{entry.name}:{cmdline[:60]}"`
unfoldable pub kill_line : List ℕ → List ℕ → List ℕ
kill_line name cmdline = name ++ 58 ∷ take 60 cmdline

-- `decode(errors="replace")` is a parameter.
module _ (decode : List ℕ → List ℕ) where
  unfoldable pub is_marked : List ℕ → Bool
  unfolding occurs
  is_marked cmdline = any (λ marker. occurs marker cmdline) markers

  abbrev pub Scan : Type 0
  Scan = List (List ℕ) → List (List ℕ)

  -- An OSError of `os.kill` that is no ProcessLookupError leaves the loop.
  unfoldable pub killed_one : Kill → List ℕ → List ℕ → Scan → Scan
  killed_one signalled name cmdline go_on killed = go_on (killed ++ kill_line name cmdline ∷ [])
  killed_one gone name cmdline go_on killed = go_on killed
  killed_one denied name cmdline go_on killed = killed

  unfoldable pub looked_at : ProcEntry → Option (List ℕ) → Scan → Scan
  looked_at entry none go_on killed = go_on killed
  looked_at entry (some bytes) go_on killed =
      if is_marked (decode (spaced_out bytes))
      then killed_one entry.kill entry.name (decode (spaced_out bytes)) go_on killed
      else go_on killed

  -- The rest of the scan, by what was killed so far. Behind an OSError of `os.scandir` there is no
  -- entry.
  unfoldable pub scan : List ProcEntry → Scan
  scan [] killed = killed
  scan (entry ∷ entries) killed =
      let go_on = scan entries in
      if isdigit entry.name then looked_at entry entry.cmdline go_on killed else go_on killed

  -- What is logged; nothing is, if nothing was killed.
  unfoldable pub force_kill_browser_driver : List ProcEntry → Option (List (List ℕ))
  force_kill_browser_driver entries = elim (scan entries []) [
    | [] ↦ none
    | line ∷ lines ↦ some (line ∷ lines)
  ]
