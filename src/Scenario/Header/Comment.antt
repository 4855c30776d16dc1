-- ===== src/Scenario/Header/Comment.antt =====
-- The header of a scenario's spec is a comment: what `checkScenarioText` is for.
use certtool.Base.{
  ◌≡◌, refl, sym, ap, ◌∙◌, subst, Bool, true, false, not, ◌==◌, if◌then◌else◌, List, [], ◌∷◌, ◌++◌,
  is_empty, All, All-mono, All-append, arith, append_assoc, and_true, Bool-cases, inl, inr, ok,
}
use certtool.Base.Text.{Text, codes, contains_byte, join, split, mem_text, Lacks, split-append}
use certtool.Scenario.{ScenarioOptions, scenario_order}
use certtool.Scenario.Quote.{plain_byte, all_plain, shell_quote}
use certtool.Scenario.Header.Command.{needs_none, known_needs_none, join-needs_none}
use certtool.Scenario.Header.{
  text_fields, check_scenario_text, header_path, header_dir, flag, flags, subject_flags,
  yubikey_words, last_flag, made, run_command, next_text, header_lines, comments, scenario_header,
}
use certtool.Scenario.Header.Flat.{
  has_break, Flat, fields-Flat, append-Flat, join-Flat, quote-Flat, flag-Flat, flags-Flat,
  or_else-Flat,
}

-- a comment, or an empty line
unfoldable pub is_comment : Text → Bool
is_comment [] = true
is_comment (c ∷ s) = c == b'#'

-- what `checkScenarioText` ensures of the options that the header holds
record FlatOptions (o : ScenarioOptions) : Type 0 where
  subject : All (λ (f : Text × Text). Flat (codes "--" ++ f.0) × Flat f.1) (subject_flags o)
  path : Flat (header_path o)
  dir : Flat (header_dir o)

checked-FlatOptions : (o : ScenarioOptions) → check_scenario_text o ≡ ok tt → FlatOptions o
unfolding check_scenario_text text_fields subject_flags Flat has_break
checked-FlatOptions o h =
    let ((org, _), ((unit, _), ((country, _), ((locality, _), ((province, _), more))))) =
      fields-Flat (text_fields o) h in
    let (
      hosts,
      (clients, ((target, _), ((key, _), ((validity, _), ((path, _), ((dir, _), rest)))))),
    ) =
      more in
    record {
      subject = (
        (refl, org),
        (
          (refl, unit),
          (
            (refl, country),
            (
              (refl, locality),
              (
                (refl, province),
                (
                  (refl, join-Flat (codes ",") o.hostnames refl hosts),
                  (
                    (refl, join-Flat (codes ",") o.clients refl clients),
                    ((refl, target), ((refl, key), ((refl, validity), tt))),
                  ),
                ),
              ),
            ),
          ),
        ),
      );
      path = or_else-Flat o.spec_path (codes "certs.yaml") path refl;
      dir = or_else-Flat o.output_dir (codes "certs") dir refl;
    }

module _ (o : ScenarioOptions) (flat : FlatOptions o) where
  last-Flat : All Flat (flag (last_flag o).0 (last_flag o).1)
  unfolding Flat has_break
  last-Flat = elim (Bool-cases o.generate) [
    | inl e ↦ rw e (flag-Flat (codes "output-dir") (header_dir o) refl flat.dir)
    | inr e ↦ rw e (flag-Flat (codes "export-spec") (header_path o) refl flat.path)
  ]

  yubikey-Flat : All Flat (yubikey_words o)
  unfolding Flat has_break
  yubikey-Flat = elim (Bool-cases o.external_root) [ inl e ↦ rw e (refl, tt) | inr e ↦ rw e tt ]

  made-Flat : (names : List Text) → Flat (join (codes ",") names) → All Flat (made names o)
  unfolding made Flat has_break
  made-Flat names h = (
    refl,
    (
      refl,
      (
        h,
        All-append Flat (flags (subject_flags o)) _ (flags-Flat (subject_flags o) flat.subject)
            (All-append Flat (yubikey_words o) _ yubikey-Flat last-Flat),
      ),
    ),
  )

  run-Flat : Flat (run_command o)
  unfolding run_command
  run-Flat = append-Flat _ _ start (
      append-Flat (shell_quote (header_path o)) _ (quote-Flat _ flat.path) (
        append-Flat (codes " --output-dir ") _ (unfold Flat has_break in refl)
          (quote-Flat _ flat.dir)))
    where
      start :
          Flat (
            if o.external_root
            then codes "certtool --yubikey --spec "
            else codes "certtool --spec ")
      start = elim (Bool-cases o.external_root) [
        | inl e ↦ rw e (unfold Flat has_break in refl)
        | inr e ↦ rw e (unfold Flat has_break in refl)
      ]

  lines-Flat : (names : List Text) → Flat (join (codes ",") names) → All Flat (header_lines names o)
  unfolding header_lines Flat has_break
  lines-Flat names h = (
    append-Flat (codes "certtool spec for --scenario ")
        (join (codes ",") names ++ codes ", written by:") refl
        (append-Flat (join (codes ",") names) (codes ", written by:") h refl),
    (
      append-Flat (codes "  ") (join (codes " ") (made names o)) refl
          (join-Flat (codes " ") (made names o) refl (made-Flat names h)),
      (
        next-Flat o.generate,
        (append-Flat (codes "  ") (run_command o) refl run-Flat, (refl, (refl, tt))),
      ),
    ),
  )
    where
      next-Flat : (b : Bool) → Flat (next_text b)
      next-Flat true = refl
      next-Flat false = refl

Flat-Lacks : (l : Text) → Flat l → Lacks 10 l
unfolding Flat has_break
Flat-Lacks [] h = tt
Flat-Lacks (c ∷ l) h = (ground arith, Flat-Lacks l (ground arith))

split-line : (l rest : Text) → Flat l → split 10 (l ++ 10 ∷ rest) ≡ l ∷ split 10 rest
split-line l rest h = split-append 10 l rest (Flat-Lacks l h)

-- A line of the header: a comment, or empty, and without another line break.
unfoldable pub IsCommentLine : Text → Type 0
IsCommentLine l = (is_comment l ≡ true) × (has_break l ≡ false)

comments-lines :
    (ls : List Text) → All Flat ls → All IsCommentLine (split 10 (comments ls ++ 10 ∷ []))
unfolding comments IsCommentLine Flat
comments-lines [] h = unfold split is_comment has_break in ((refl, refl), ((refl, refl), tt))
comments-lines (l ∷ ls) (h, hs) =
    let e =
      ap (λ (t : Text). split 10 (b'#' ∷ 32 ∷ t)) (append_assoc l (10 ∷ comments ls) (10 ∷ [])) in
    let marked : Flat (b'#' ∷ 32 ∷ l) = unfold Flat has_break in h in
    subst (All IsCommentLine) (sym (e ∙ split-line (b'#' ∷ 32 ∷ l) (comments ls ++ 10 ∷ []) marked))
      ((unfold is_comment in refl, marked), comments-lines ls hs)

plain-Flat : (s : Text) → all_plain s ≡ true → Flat s
unfolding all_plain Flat has_break plain_byte contains_byte
plain-Flat [] h = refl
plain-Flat (c ∷ s) h = ground (arith, plain-Flat s)

needs_none-plain : (s : Text) → needs_none s ≡ true → all_plain s ≡ true
unfolding needs_none
needs_none-plain s h = (and_true (not (is_empty s)) (all_plain s) h).1

-- Where `checkScenarioText` accepts the options, the header of a spec for known scenarios is all
-- comment: split at its line feeds, each line is empty or starts with #, and none has a carriage
-- return.
pub scenario_header-IsCommentLine :
    (n : Text) (ns : List Text) (o : ScenarioOptions)
    → All (λ s. mem_text s scenario_order ≡ true) (n ∷ ns)
    → check_scenario_text o ≡ ok tt
    → All IsCommentLine (split 10 (scenario_header (n ∷ ns) o))
unfolding scenario_header
scenario_header-IsCommentLine n ns o known h =
    let plain = join-needs_none n ns (All-mono known_needs_none (n ∷ ns) known) in
    comments-lines (header_lines (n ∷ ns) o) (
      lines-Flat o (checked-FlatOptions o h) (n ∷ ns)
        (plain-Flat (join (codes ",") (n ∷ ns)) (needs_none-plain _ plain)))
