-- ===== src/Lustre/Exec.antt =====
-- `exec` of src/common/util.h, behind `popen`: the output of the command is read by `fgets`.
use mathlib.Core.List.{append-nil, append_assoc}
use qos_planner.Common.{
  ℕ, zero, suc, ◌≤◌, ◌<◌, ◌≡◌, refl, sym, ap, ◌∙◌, Bool-cases, inl, inr, [], ◌∷◌, ◌++◌, false, true,
  Option-cases, Option, none, some, ◌==◌, if◌then◌else◌, length, Str, arith,
}
use qos_planner.Rules.{is_some}
use qos_planner.Retry.{c_str}

-- `fgets` with room for that many bytes: the bytes that it reads, and what is left.
unfoldable pub fgets : ℕ → Str → Str × Str
fgets zero s = ([], s)
fgets (suc n) [] = ([], [])
fgets (suc n) (c ∷ s) =
    let (line, rest) = fgets n s in if c == 10 then (c ∷ [], s) else (c ∷ line, rest)

-- `buffer[128]`, with its last byte for the zero.
abbrev pub buffer_room : ℕ
buffer_room = 127

-- The loop of `exec`, on the output that is left and what has been collected; `none` is that the fuel
-- ran out. A buffer is appended up to its first zero byte.
unfoldable pub read_output : ℕ → Str → Str → Option Str
read_output zero s out = none
read_output (suc fuel) [] out = some out
read_output (suc fuel) (c ∷ s) out =
    let (line, rest) = fgets buffer_room (c ∷ s) in read_output fuel rest (out ++ c_str line)

-- `exec`; `popen` is what the command writes, or `none` if it cannot be run.
unfoldable pub exec : (Str → Option Str) → Str → Str → Option Str
unfolding read_output fgets c_str
exec popen cmd out = elim (popen cmd) [
  | none ↦ none
  | some written ↦ read_output (suc (length written)) written out
]

abbrev pub HasNoZero : Str → Type 0
HasNoZero [] = Unit {0}
HasNoZero (c ∷ s) = ((c == 0) ≡ false) × HasNoZero s

-- A line and the rest are the text, the line has no zero either, and the rest is no longer.
record Line (s : Str) (r : Str × Str) : Type 0 where
  whole : r.0 ++ r.1 ≡ s
  kept : c_str r.0 ≡ r.0
  rest : HasNoZero r.1
  shorter : length r.1 ≤ length s

fgets-Line : (n : ℕ) (s : Str) → HasNoZero s → Line s (fgets n s)
unfolding fgets c_str
fgets-Line zero s h = record { whole = refl; kept = refl; rest = h; shorter = omega arith }
fgets-Line (suc n) [] h = record { whole = refl; kept = refl; rest = tt; shorter = omega arith }
fgets-Line (suc n) (c ∷ s) (full, h) =
    let later = fgets-Line n s h in
    elim (Bool-cases (c == 10)) [
      | inl end ↦ rw end (record { whole = refl; kept = rw full; rest = h; shorter = omega arith })
      | inr more ↦ rw more (record {
        whole = ap (◌∷◌ c) later.whole;
        kept = rw (full, later.kept);
        rest = later.rest;
        shorter = omega (arith, later.shorter);
      })
    ]

fgets-shorter : (n c : ℕ) (s : Str) → HasNoZero s → length (fgets (suc n) (c ∷ s)).1 ≤ length s
unfolding fgets
fgets-shorter n c s h = ground (arith, (fgets-Line n s h).shorter)

read_output-eq :
    (fuel : ℕ) (s out : Str)
    → HasNoZero s
    → length s < fuel
    → read_output fuel s out ≡ some (out ++ s)
unfolding read_output
read_output-eq zero s out h f = absurd (omega arith)
read_output-eq (suc fuel) [] out h f = ap some (sym (append-nil out))
read_output-eq (suc fuel) (c ∷ s) out h f =
    let (line, rest) = fgets buffer_room (c ∷ s) in
    let read = fgets-Line buffer_room (c ∷ s) h in
    read_output-eq fuel rest (out ++ c_str line) read.rest
      (omega (arith, fgets-shorter 126 c s h.1))
    ∙ ap some (
        append_assoc out (c_str line) rest
        ∙ ap (◌++◌ out) (ap (λ l. l ++ rest) read.kept ∙ read.whole))

-- What a command writes is appended whole, if it has no zero byte.
pub exec_correct :
    (popen : Str → Option Str) (cmd out written : Str)
    → popen cmd ≡ some written
    → HasNoZero written
    → exec popen cmd out ≡ some (out ++ written)
unfolding exec
exec_correct popen cmd out written e h =
    rw (e, exec) (read_output-eq (suc (length written)) written out h (omega arith))

fgets-length : (n : ℕ) (s : Str) → length (fgets n s).1 ≤ length s
unfolding fgets
fgets-length zero s = omega arith
fgets-length (suc n) [] = omega arith
fgets-length (suc n) (c ∷ s) = ground (arith, fgets-length n s)

fgets-less : (n c : ℕ) (s : Str) → length (fgets (suc n) (c ∷ s)).1 ≤ length s
unfolding fgets
fgets-less n c s = ground (arith, fgets-length n s)

read_output-ends :
    (fuel : ℕ) (s out : Str) → length s < fuel → is_some (read_output fuel s out) ≡ true
unfolding read_output
read_output-ends zero s out f = absurd (omega arith)
read_output-ends (suc fuel) [] out f = refl
read_output-ends (suc fuel) (c ∷ s) out f =
    let (line, rest) = fgets buffer_room (c ∷ s) in
    read_output-ends fuel rest (out ++ c_str line) (omega (arith, fgets-less 126 c s))

-- Whatever a command writes, and however it ends, `exec` succeeds exactly if the command can be started.
pub exec-is_some :
    (popen : Str → Option Str) (cmd out : Str) → is_some (exec popen cmd out) ≡ is_some (popen cmd)
unfolding exec
exec-is_some popen cmd out = elim (Option-cases (popen cmd)) [
  | inl stuck ↦ ground arith
  | inr (written, e) ↦ ground (arith, read_output-ends (suc (length written)) written out)
]
