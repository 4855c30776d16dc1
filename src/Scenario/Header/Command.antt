-- ===== src/Scenario/Header/Command.antt =====
-- A shell reads the commands of a scenario's header as the options say.
use mathlib.Core.List.{map-append}
use mathlib.Core.Path.{ap₂}
use certtool.Base.{
  ◌≡◌, refl, sym, ap, ◌∙◌, Bool, true, ◌&&◌, not, if◌then◌else◌, List, [], ◌∷◌, ◌++◌, is_empty, map,
  All, All-mono, Any, arith, Bool-cases, inl, inr, if_true, some, and_true,
}
use certtool.Base.Text.{Text, codes, join, mem_text, mem_text→Any}
use certtool.Scenario.{ScenarioOptions, scenario_order}
use certtool.Scenario.Quote.{plain_byte, all_plain, shell_quote, shell_words}
use certtool.Scenario.Quote.Words.{shell_words-join}
use certtool.Scenario.Header.{
  header_path, header_dir, flag, flags, subject_flags, yubikey_words, last_flag, made, run_command,
}

-- a text that needs no quotes
unfoldable pub needs_none : Text → Bool
needs_none s = not (is_empty s) && all_plain s

unquoted : (s : Text) → needs_none s ≡ true → shell_quote s ≡ s
unfolding needs_none shell_quote
unquoted s h = if_true _ _ _ h

-- the words that stand for a flag, and for flags
unfoldable pub one_flag_words : Text → Text → List Text
one_flag_words name value = if is_empty value then [] else (codes "--" ++ name) ∷ value ∷ []

unfoldable pub flag_words : List (Text × Text) → List Text
flag_words [] = []
flag_words ((name, value) ∷ fs) = one_flag_words name value ++ flag_words fs

-- The words of the command that wrote the spec: the scenarios, a flag for each option that is given,
-- --yubikey with an external root, and where the output goes.
unfoldable pub command_words : List Text → ScenarioOptions → List Text
command_words names o =
    codes "certtool"
    ∷ codes "--scenario"
    ∷ join (codes ",") names
    ∷ (flag_words (subject_flags o)
        ++ (yubikey_words o ++ one_flag_words (last_flag o).0 (last_flag o).1))

-- The words of the command that generates the certificates.
unfoldable pub run_words : ScenarioOptions → List Text
run_words o =
    (codes "certtool" ∷ yubikey_words o)
    ++ (codes "--spec" ∷ header_path o ∷ codes "--output-dir" ∷ header_dir o ∷ [])

flag_quoted :
    (name value : Text)
    → needs_none (codes "--" ++ name) ≡ true
    → flag name value ≡ map shell_quote (one_flag_words name value)
unfolding flag one_flag_words
flag_quoted name [] h = refl
flag_quoted name (c ∷ v) h = ap (λ n. n ∷ shell_quote (c ∷ v) ∷ []) (sym (unquoted _ h))

flags_quoted :
    (fs : List (Text × Text))
    → All (λ (f : Text × Text). needs_none (codes "--" ++ f.0) ≡ true) fs
    → flags fs ≡ map shell_quote (flag_words fs)
unfolding flags flag_words
flags_quoted [] h = refl
flags_quoted ((name, value) ∷ fs) (h, hs) =
    ap₂ (λ (a b : List Text). a ++ b) (flag_quoted name value h) (flags_quoted fs hs)
    ∙ sym (map-append shell_quote (one_flag_words name value) (flag_words fs))

subject_names :
    (o : ScenarioOptions)
    → All (λ (f : Text × Text). needs_none (codes "--" ++ f.0) ≡ true) (subject_flags o)
unfolding needs_none subject_flags all_plain plain_byte
subject_names o = (refl, (refl, (refl, (refl, (refl, (refl, (refl, (refl, (refl, (refl, tt))))))))))

last_name : (o : ScenarioOptions) → needs_none (codes "--" ++ (last_flag o).0) ≡ true
unfolding needs_none all_plain plain_byte
last_name o = elim (Bool-cases o.generate) [ inl e ↦ rw e refl | inr e ↦ rw e refl ]

yubikey_quoted : (o : ScenarioOptions) → map shell_quote (yubikey_words o) ≡ yubikey_words o
unfolding shell_quote
yubikey_quoted o = elim (Bool-cases o.external_root) [ inl e ↦ rw e refl | inr e ↦ rw e refl ]

-- the names of scenarios need no quotes
all_need_none : List Text → Bool
unfolding needs_none
all_need_none [] = true
all_need_none (s ∷ ss) = needs_none s && all_need_none ss

needs_none_of_mem :
    (s : Text) (ss : List Text)
    → all_need_none ss ≡ true
    → Any (λ t. s ≡ t) ss
    → needs_none s ≡ true
unfolding all_need_none
needs_none_of_mem s [] h m = elim m [ ]
needs_none_of_mem s (t ∷ ss) h (inl e) = ap needs_none e ∙ (and_true (needs_none t) _ h).0
needs_none_of_mem s (t ∷ ss) h (inr m) = needs_none_of_mem s ss (and_true (needs_none t) _ h).1 m

order_needs_none : all_need_none scenario_order ≡ true
unfolding all_need_none scenario_order all_plain plain_byte
order_needs_none = refl

pub known_needs_none : (s : Text) → mem_text s scenario_order ≡ true → needs_none s ≡ true
known_needs_none s h = needs_none_of_mem s scenario_order order_needs_none (mem_text→Any s _ h)

all_plain-append :
    (s t : Text) → all_plain s ≡ true → all_plain t ≡ true → all_plain (s ++ t) ≡ true
unfolding all_plain
all_plain-append [] t h k = k
all_plain-append (c ∷ s) t h k = ground (arith, all_plain-append s t)

comma_plain : (s : Text) → all_plain s ≡ true → all_plain (b',' ∷ s) ≡ true
unfolding all_plain plain_byte
comma_plain s h = h

pub join-needs_none :
    (n : Text) (ns : List Text)
    → All (λ s. needs_none s ≡ true) (n ∷ ns)
    → needs_none (join (codes ",") (n ∷ ns)) ≡ true
unfolding needs_none join
join-needs_none n [] (h, hs) = h
join-needs_none [] (m ∷ ns) (h, hs) = cc
join-needs_none (c ∷ n) (m ∷ ns) (h, hs) =
    let rest = join (codes ",") (m ∷ ns) in
    all_plain-append (c ∷ n) (b',' ∷ rest) h (
      comma_plain rest
        (and_true (not (is_empty rest)) (all_plain rest) (join-needs_none m ns hs)).1)

certtool_quoted : shell_quote (codes "certtool") ≡ codes "certtool"
unfolding shell_quote
certtool_quoted = refl

scenario_quoted : shell_quote (codes "--scenario") ≡ codes "--scenario"
unfolding shell_quote
scenario_quoted = refl

made_quoted :
    (names : List Text) (o : ScenarioOptions)
    → needs_none (join (codes ",") names) ≡ true
    → made names o ≡ map shell_quote (command_words names o)
unfolding made command_words
made_quoted names o h =
    ap
      (λ (j : Text).
        codes "certtool"
        ∷ codes "--scenario"
        ∷ j
        ∷ (flags (subject_flags o) ++ (yubikey_words o ++ flag (last_flag o).0 (last_flag o).1)))
      (sym (unquoted _ h))
    ∙ ap₂
        (λ (a b : List Text).
          codes "certtool" ∷ codes "--scenario" ∷ shell_quote (join (codes ",") names) ∷ a ++ b)
        (flags_quoted (subject_flags o) (subject_names o))
        (ap₂ (λ (a b : List Text). a ++ b) (sym (yubikey_quoted o)) (flag_quoted _ _ (last_name o)))
    ∙ simp (map-append, certtool_quoted, scenario_quoted)

run_quoted :
    (o : ScenarioOptions) → run_command o ≡ join (codes " ") (map shell_quote (run_words o))
unfolding run_command run_words join shell_quote
run_quoted o = elim (Bool-cases o.external_root) [ inl e ↦ rw e refl | inr e ↦ rw e refl ]

-- A shell reads the two commands of a scenario's header, for known scenarios, as the words that they
-- are made of: the options that are given, whatever bytes they hold, each as one word.
pub commands-round_trip :
    (n : Text) (ns : List Text) (o : ScenarioOptions)
    → All (λ s. mem_text s scenario_order ≡ true) (n ∷ ns)
    → (shell_words (join (codes " ") (made (n ∷ ns) o)) ≡ some (command_words (n ∷ ns) o))
      × (shell_words (run_command o) ≡ some (run_words o))
commands-round_trip n ns o known = (
  ap (λ ws. shell_words (join (codes " ") ws))
        (made_quoted (n ∷ ns) o (join-needs_none n ns (All-mono known_needs_none (n ∷ ns) known)))
      ∙ shell_words-join (command_words (n ∷ ns) o),
  ap shell_words (run_quoted o) ∙ shell_words-join (run_words o),
)
