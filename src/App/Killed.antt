-- ===== src/App/Killed.antt =====
-- What _force_kill_browser_driver kills.
use z_apply_backend.App.Driver.{
  Kill, signalled, gone, denied, ProcEntry, isdigit, spaced_out, kill_line, Scan, is_marked,
  killed_one, looked_at, scan, force_kill_browser_driver,
}
use z_apply_backend.Base.{
  ℕ, ◌≡◌, ◌∙◌, ap, sym, Bool, true, false, ◌&&◌, Option, none, some, List, [], ◌∷◌, ◌++◌, map,
  select, arith, append_nil, append_assoc, if◌then◌else◌,
}

abbrev pub unless_empty : List (List ℕ) → Option (List (List ℕ))
unless_empty [] = none
unless_empty (line ∷ rest) = some (line ∷ rest)

module _ (decode : List ℕ → List ℕ) where
  -- The entry of a process of the browser, by its decoded command line.
  abbrev pub text_of : Option (List ℕ) → List ℕ
  text_of none = []
  text_of (some bytes) = decode (spaced_out bytes)

  abbrev has_marker : Option (List ℕ) → Bool
  has_marker none = false
  has_marker (some bytes) = is_marked decode (decode (spaced_out bytes))

  abbrev pub is_browser : ProcEntry → Bool
  is_browser entry = isdigit entry.name && has_marker entry.cmdline

  abbrev is_signalled : Kill → Bool
  is_signalled signalled = true
  is_signalled _ = false

  abbrev is_denied : Kill → Bool
  is_denied denied = true
  is_denied _ = false

  -- The entries before the first process of the browser that may not be killed.
  abbrev pub before_denied : List ProcEntry → List ProcEntry
  before_denied [] = []
  before_denied (entry ∷ entries) =
      if is_browser entry && is_denied entry.kill then [] else entry ∷ before_denied entries

  abbrev pub victims : List ProcEntry → List ProcEntry
  victims entries = select (λ e. is_browser e && is_signalled e.kill) (before_denied entries)

  abbrev pub lines : List ProcEntry → List (List ℕ)
  lines entries = map (λ e. kill_line e.name (text_of e.cmdline)) (victims entries)

  abbrev lines_with : Bool → Option (List ℕ) → Kill → ProcEntry → List ProcEntry → List (List ℕ)
  lines_with d o k entry entries =
      if (d && has_marker o) && is_denied k
      then []
      else if (d && has_marker o) && is_signalled k
      then kill_line entry.name (text_of o) ∷ lines entries
      else lines entries

  lines-step :
      (entry : ProcEntry) (entries : List ProcEntry)
      → lines (entry ∷ entries)
        ≡ lines_with (isdigit entry.name) entry.cmdline entry.kill entry entries
  lines-step entry entries = ground arith

  killed_one-lines :
      (k : Kill) (name text : List ℕ) (go_on : Scan decode) (more killed : List (List ℕ))
      → ((sofar : List (List ℕ)) → go_on sofar ≡ sofar ++ more)
      → killed_one decode k name text go_on killed
        ≡ killed
          ++ (if is_denied k
              then []
              else if is_signalled k
              then kill_line name text ∷ more
              else more)
  unfolding killed_one
  killed_one-lines signalled name text go_on more killed ih =
      ih (killed ++ kill_line name text ∷ []) ∙ append_assoc killed (kill_line name text ∷ []) more
  killed_one-lines gone name text go_on more killed ih = ih killed
  killed_one-lines denied name text go_on more killed ih = sym (append_nil killed)

  marked-lines :
      (b : Bool) (k : Kill) (name text : List ℕ) (go_on : Scan decode) (more killed : List (List ℕ))
      → ((sofar : List (List ℕ)) → go_on sofar ≡ sofar ++ more)
      → (if b then killed_one decode k name text go_on killed else go_on killed)
        ≡ killed
          ++ (if b && is_denied k
              then []
              else if b && is_signalled k
              then kill_line name text ∷ more
              else more)
  marked-lines true k name text go_on more killed ih =
      killed_one-lines k name text go_on more killed ih
  marked-lines false k name text go_on more killed ih = ih killed

  looked_at-lines :
      (d : Bool) (o : Option (List ℕ)) (entry : ProcEntry) (entries : List ProcEntry)
      (go_on : Scan decode) (killed : List (List ℕ))
      → ((sofar : List (List ℕ)) → go_on sofar ≡ sofar ++ lines entries)
      → (if d then looked_at decode entry o go_on killed else go_on killed)
        ≡ killed ++ lines_with d o entry.kill entry entries
  unfolding looked_at
  looked_at-lines true none entry entries go_on killed ih = ih killed
  looked_at-lines true (some bytes) entry entries go_on killed ih =
      marked-lines (is_marked decode (decode (spaced_out bytes))) entry.kill entry.name
        (decode (spaced_out bytes)) go_on (lines entries) killed ih
  looked_at-lines false o entry entries go_on killed ih = ih killed

  scan-lines :
      (entries : List ProcEntry) (killed : List (List ℕ))
      → scan decode entries killed ≡ killed ++ lines entries
  unfolding scan
  scan-lines [] killed = sym (append_nil killed)
  scan-lines (entry ∷ entries) killed =
      looked_at-lines (isdigit entry.name) entry.cmdline entry entries (scan decode entries) killed
        (scan-lines entries)
      ∙ ap (λ l. killed ++ l) (sym (lines-step entry entries))

  -- What is logged, and so killed, are the processes with a numeric name, a command line that can be
  -- read and has a marker, and which the signal reaches, in the order of the scan; but only those
  -- before the first such process that may not be killed. Entries that cannot be read, and processes
  -- that are gone, are passed over.
  pub force_kill_browser_driver-lines :
      (entries : List ProcEntry)
      → force_kill_browser_driver decode entries ≡ unless_empty (lines entries)
  unfolding force_kill_browser_driver
  force_kill_browser_driver-lines entries = ap unless_empty (scan-lines entries [])
