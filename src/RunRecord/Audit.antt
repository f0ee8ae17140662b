-- ===== src/RunRecord/Audit.antt =====
-- When `verify_run_journal` of src/psv/run_record.py has nothing to report.
use psv.Base.{
  ℕ, ◌+◌, ◌≡◌, refl, ap, ◌↔◌, inl, inr, true, Option, none, some, List, [], ◌∷◌, arith,
  Option-cases, All,
}
use psv.Text.{Text}
use psv.Value.{Value, Fields, str, dict, get_or_null}
use psv.RunRecord.{Library, verify_run_record}
use psv.RunRecord.Journal.{
  Finding, Disk, same_id, record_finding, file_finding, entry_finding, journal_findings,
  verify_run_journal, IsSoundLine,
}

abbrev IsSoundRecord : Library → Fields → Option Value → Type 0
IsSoundRecord lib entry r =
    (run : Fields) × (r ≡ some (dict run))
    × (verify_run_record lib run ≡ true)
    × (same_id (get_or_null "runId" entry) (get_or_null "runId" run) ≡ true)

record_sound :
    (lib : Library) (entry : Fields) (r : Option Value)
    → record_finding lib entry r ≡ none
    → IsSoundRecord lib entry r
unfolding record_finding
record_sound lib entry none h = cc
record_sound lib entry (some (dict run)) h = (run, refl, ground (arith, h), ground (arith, h))
record_sound lib entry (some _) h = cc

record_complete :
    (lib : Library) (entry : Fields) (r : Option Value)
    → IsSoundRecord lib entry r
    → record_finding lib entry r ≡ none
unfolding record_finding
record_complete lib entry r (run, e, v, s) = rw e (rw v (rw s refl))

abbrev IsSoundFile : Library → Disk → Fields → Value → Type 0
IsSoundFile lib disk entry file =
    (name : Text) × (file ≡ str name)
    × (disk.is_plain_name name ≡ true)
    × IsSoundRecord lib entry (disk.read name)

file_sound :
    (lib : Library) (disk : Disk) (entry : Fields) (file : Value)
    → file_finding lib disk entry file ≡ none
    → IsSoundFile lib disk entry file
unfolding file_finding
file_sound lib disk entry (str name) h =
    (name, refl, ground (arith, h), record_sound lib entry (disk.read name) (ground (arith, h)))
file_sound lib disk entry _ h = cc

file_complete :
    (lib : Library) (disk : Disk) (entry : Fields) (file : Value)
    → IsSoundFile lib disk entry file
    → file_finding lib disk entry file ≡ none
unfolding file_finding
file_complete lib disk entry file (name, e, p, s) =
    rw e (rw p (record_complete lib entry (disk.read name) s))

line_sound :
    (lib : Library) (disk : Disk) (line : Text) (decoded : Option Value)
    → disk.loads line ≡ decoded
    → entry_finding lib disk decoded ≡ none
    → IsSoundLine lib disk line
unfolding entry_finding
line_sound lib disk line none l h = cc
line_sound lib disk line (some (dict entry)) l h =
    let (name, f, p, (run, r, v, s)) = file_sound lib disk entry (get_or_null "file" entry) h in
    (entry, name, run, l, f, p, r, v, s)
line_sound lib disk line (some _) l h = cc

line_complete :
    (lib : Library) (disk : Disk) (line : Text)
    → IsSoundLine lib disk line
    → entry_finding lib disk (disk.loads line) ≡ none
unfolding entry_finding
line_complete lib disk line (entry, name, run, l, f, p, r, v, s) =
    rw l (file_complete lib disk entry (get_or_null "file" entry) (name, f, p, (run, r, v, s)))

lines_sound :
    (lib : Library) (disk : Disk) (n : ℕ) (lines : List Text)
    → journal_findings lib disk n lines ≡ []
    → All (IsSoundLine lib disk) lines
unfolding journal_findings
lines_sound lib disk n [] h = tt
lines_sound lib disk n (line ∷ lines) h =
    elim (Option-cases (entry_finding lib disk (disk.loads line))) [
      | inl e ↦ (
        line_sound lib disk line (disk.loads line) refl e,
        lines_sound lib disk (n + 1) lines (ground (arith, h, e)),
      )
      | inr (f, e) ↦ absurd (ground (arith, h, e))
    ]

lines_complete :
    (lib : Library) (disk : Disk) (n : ℕ) (lines : List Text)
    → All (IsSoundLine lib disk) lines
    → journal_findings lib disk n lines ≡ []
unfolding journal_findings
lines_complete lib disk n [] h = refl
lines_complete lib disk n (line ∷ lines) (l, h) =
    let e = line_complete lib disk line l in
    let later = lines_complete lib disk (n + 1) lines h in ground (arith, e, later)

-- The check of a journal that is there finds nothing, if and only if every line of it decodes to an
-- object that names a plain file, and that file holds a record whose content hash is right and whose
-- id is the one in the line.
pub verify_run_journal_iff :
    (lib : Library) (disk : Disk) (lines : List Text)
    → (verify_run_journal lib disk (some lines) ≡ some []) ↔ All (IsSoundLine lib disk) lines
unfolding verify_run_journal
verify_run_journal_iff lib disk lines = (
  λ h. lines_sound lib disk 1 lines (some_eq _ _ h),
  λ a. ap some (lines_complete lib disk 1 lines a),
)
  where
    some_eq : (a b : List (ℕ × Finding)) → some a ≡ some b → a ≡ b
    some_eq a b h = cc
