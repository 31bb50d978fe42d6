-- ===== src/Migration/Runner/Statements.antt =====
-- Which statements `apply` of api-service/migrations/20261025000000-durable-delivery.js runs.
use Prim.Native.String.{◌++◌ as str_append}
use scalequeue.Common.{
  ◌≡◌, refl, ap, ◌∙◌, String, true, false, List, [], ◌∷◌, ◌++◌, map, filter, any, All, ◌==◌, ⊤,
  arith,
}
use scalequeue.Identity.{Text}
use scalequeue.Migration.Runner.{
  Settled, rejected, resolved, and_then, put_first, split, trim, is_nonempty, statements, run_each,
  apply,
}

-- A statement without a semicolon, not empty, and without white space at its ends.
abbrev pub IsStatement : Text → Type 0
IsStatement t = (any (λ c. c == b';') t ≡ false) × (trim t ≡ t) × (is_nonempty t ≡ true)

-- A file of statements, each ended by a semicolon and a new line.
abbrev pub script : List Text → Text
script [] = []
script (t ∷ ts) = t ++ b';' ∷ b'\n' ∷ script ts

split-statement :
    (t rest : Text) → any (λ c. c == b';') t ≡ false → split (t ++ b';' ∷ rest) ≡ t ∷ split rest
unfolding split
split-statement [] rest h = refl
split-statement (c ∷ t) rest h = ground (arith, split-statement t rest)

clean : List Text → List Text
clean ts = filter is_nonempty (map trim ts)

clean_step :
    (t : Text) (ps ts : List Text)
    → trim t ≡ t
    → is_nonempty t ≡ true
    → clean ps ≡ ts
    → clean ((b'\n' ∷ t) ∷ ps) ≡ t ∷ ts
unfolding clean
clean_step t ps ts trimmed full rest = rw (trimmed, full, rest) refl

clean-script : (ts : List Text) → All IsStatement ts → clean (split (b'\n' ∷ script ts)) ≡ ts
unfolding split clean
clean-script [] h = refl
clean-script (t ∷ ts) ((plain, trimmed, full), h) =
    ap (λ ps. clean (put_first b'\n' ps)) (split-statement t (b'\n' ∷ script ts) plain)
    ∙ clean_step t (split (b'\n' ∷ script ts)) ts trimmed full (clean-script ts h)

statements-script : (ts : List Text) → All IsStatement ts → statements (script ts) ≡ ts
unfolding statements split clean
statements-script [] h = refl
statements-script (t ∷ ts) ((plain, trimmed, full), h) =
    ap clean (split-statement t (b'\n' ∷ script ts) plain)
    ∙ rw (trimmed, full, clean-script ts h) refl

-- How the statements of a list are run: one after the other, each on what the one before left, and
-- none after one that is rejected, whose error is the result.
pub data Runs {S : Type 0} (run_sql : Text → S → Settled ⊤ × S)
    : List Text → S → Settled ⊤ × S → Type 0 where
  finished : (s : S) → Runs run_sql [] s (resolved tt, s)
  stopped :
      (t : Text) (ts : List Text) (s u : S) (e : Text)
      → run_sql t s ≡ (rejected e, u)
      → Runs run_sql (t ∷ ts) s (rejected e, u)
  went_on :
      (t : Text) (ts : List Text) (s u : S) (r : Settled ⊤ × S)
      → run_sql t s ≡ (resolved tt, u)
      → Runs run_sql ts u r
      → Runs run_sql (t ∷ ts) s r

module _ {S : Type 0} (run_sql : Text → S → Settled ⊤ × S) where
  run_each_step :
      (t : Text) (ts : List Text) (s : S) (m : Settled ⊤ × S)
      → run_sql t s ≡ m
      → ((u : S) → Runs run_sql ts u (run_each run_sql ts u))
      → Runs run_sql (t ∷ ts) s (and_then m (λ _ r. run_each run_sql ts r))
  run_each_step t ts s (rejected e, u) ran rest = stopped t ts s u e ran
  run_each_step t ts s (resolved a, u) ran rest =
      went_on t ts s u (run_each run_sql ts u) ran (rest u)

  run_each-Runs : (ts : List Text) (s : S) → Runs run_sql ts s (run_each run_sql ts s)
  unfolding run_each
  run_each-Runs [] s = finished s
  run_each-Runs (t ∷ ts) s = run_each_step t ts s (run_sql t s) refl (λ u. run_each-Runs ts u)

-- Where the file that `apply` reads is a list of statements, each ended by a semicolon and a new
-- line, `apply` runs these statements, one after the other, each on what the one before left: all
-- of them, or those up to the first that is rejected, with whose error it ends. The statements have
-- no semicolon inside and no white space at their ends, and are not empty.
pub apply-script :
    {S : Type 0} (read_file : String → Settled Text) (run_sql : Text → S → Settled ⊤ × S)
    (direction : String) (ts : List Text) (s : S)
    → All IsStatement ts
    → read_file (str_append "20261025000000-durable-delivery-" (str_append direction ".sql"))
      ≡ resolved (script ts)
    → Runs run_sql ts s (apply read_file run_sql direction s)
unfolding apply
apply-script read_file run_sql direction ts s h found =
    rw (found, statements-script ts h) (run_each-Runs run_sql ts s)
