-- ===== src/Subject/RoundTrip.antt =====
-- Printing a distinguished name and parsing it: `ParseName` of pkg/certtool/certtool.go.
use certtool.Base.{
  ℕ, true, false, ◌==◌, List, [], ◌∷◌, ◌++◌, map, append_assoc, append-nil, All, ok, ◌>>=◌, ◌≡◌,
  refl, sym, ap, ◌∙◌, arith, All-append,
}
use certtool.Base.Text.{
  Text, codes, to_upper, split, contains_byte, Lacks, split_at, split-append, split-whole,
}
use certtool.Cert.{Name}
use certtool.Subject.{
  protect, add_attribute, known_attribute, parse_part, parse_parts, empty_name, parse_name,
}
use certtool.Subject.Print.{
  Kind, cn, ou, o, l, st, c, street, postal_code, key, Attribute, print_name, put_attribute,
  put_attributes, IsValue,
}
use certtool.Subject.Marks.{
  mark, protect_other, protect-append, protect-escape, mark-Lacks-delimiter, mark-Lacks-equals,
  restore-mark,
}

contains_byte-Lacks : (b : ℕ) (s : Text) → contains_byte b s ≡ false → Lacks b s
unfolding contains_byte
contains_byte-Lacks b [] h = tt
contains_byte-Lacks b (x ∷ s) h = (ground arith, contains_byte-Lacks b s (ground arith))

abbrev delimiters : Text
delimiters = codes "/=\\"

are_delimiters :
    (contains_byte b'/' delimiters ≡ true)
    × ((contains_byte b'=' delimiters ≡ true) × (contains_byte b'\\' delimiters ≡ true))
unfolding contains_byte
are_delimiters = (refl, (refl, refl))

free_key : (k : Kind) (b : ℕ) → contains_byte b delimiters ≡ true → contains_byte b (key k) ≡ false
unfolding key contains_byte
free_key cn b h = ground arith
free_key ou b h = ground arith
free_key o b h = ground arith
free_key l b h = ground arith
free_key st b h = ground arith
free_key c b h = ground arith
free_key street b h = ground arith
free_key postal_code b h = ground arith

key-Lacks : (k : Kind) (b : ℕ) → contains_byte b delimiters ≡ true → Lacks b (key k)
key-Lacks k b h = contains_byte-Lacks b (key k) (free_key k b h)

-- a part of what is split
part : Attribute → Text
part a = key a.kind ++ b'=' ∷ mark a.value

part-Lacks : (a : Attribute) → Lacks b'/' (part a)
unfolding part
part-Lacks a =
    All-append (λ (x : ℕ). (x == b'/') ≡ false) (key a.kind) (b'=' ∷ mark a.value)
      (key-Lacks a.kind b'/' are_delimiters.0) (refl, mark-Lacks-delimiter a.value)

parts_text : List Attribute → Text
unfolding part
parts_text [] = []
parts_text (a ∷ more) = b'/' ∷ (part a ++ parts_text more)

abbrev IsWritable : List Attribute → Type 0
IsWritable = All (λ (a : Attribute). IsValue a.value)

protect-print_name :
    (attributes : List Attribute)
    → IsWritable attributes
    → protect (print_name attributes) ≡ parts_text attributes
unfolding print_name parts_text part protect IsValue
protect-print_name [] h = refl
protect-print_name (a ∷ more) ((e, f, g), hs) =
    protect_other b'/' _ refl
    ∙ ap (λ t. b'/' ∷ t)
        (protect-append (key a.kind) _ (key-Lacks a.kind b'\\' are_delimiters.1.1)
          ∙ ap (λ t. key a.kind ++ t)
              (protect_other b'=' _ refl
                ∙ ap (λ t. b'=' ∷ t)
                    (protect-escape a.value (print_name more) g
                      ∙ ap (λ t. mark a.value ++ t) (protect-print_name more hs)))
          ∙ sym (append_assoc (key a.kind) (b'=' ∷ mark a.value) (parts_text more)))

split-parts :
    (a : Attribute) (more : List Attribute)
    → split b'/' (part a ++ parts_text more) ≡ part a ∷ map part more
unfolding parts_text
split-parts a [] = ap (split b'/') (append-nil (part a)) ∙ split-whole b'/' (part a) (part-Lacks a)
split-parts a (b ∷ more) =
    split-append b'/' (part a) (part b ++ parts_text more) (part-Lacks a)
    ∙ ap (λ ps. part a ∷ ps) (split-parts b more)

add_attribute_lem :
    (k : Kind) (v : Text) (name : Name)
    → known_attribute (key k) (add_attribute (to_upper (key k)) v name)
      ≡ ok (put_attribute (record { kind = k; value = v }) name)
unfolding add_attribute key to_upper put_attribute
add_attribute_lem cn v name = refl
add_attribute_lem ou v name = refl
add_attribute_lem o v name = refl
add_attribute_lem l v name = refl
add_attribute_lem st v name = refl
add_attribute_lem c v name = refl
add_attribute_lem street v name = refl
add_attribute_lem postal_code v name = refl

parse_part_lem :
    (a : Attribute) (name : Name)
    → IsValue a.value
    → parse_part (split b'=' (part a)) name ≡ ok (put_attribute a name)
unfolding part parse_part IsValue
parse_part_lem a name (e, f, g) =
    ap (λ ps. parse_part ps name)
      (split-append b'=' (key a.kind) (mark a.value) (key-Lacks a.kind b'=' are_delimiters.1.0)
        ∙ ap (λ ps. key a.kind ∷ ps)
            (split-whole b'=' (mark a.value) (mark-Lacks-equals a.value e)))
    ∙ ap (λ v. known_attribute (key a.kind) (add_attribute (to_upper (key a.kind)) v name))
        (restore-mark a.value f)
    ∙ add_attribute_lem a.kind a.value name

parse_parts_lem :
    (attributes : List Attribute) (name : Name)
    → IsWritable attributes
    → parse_parts (map part attributes) name ≡ ok (put_attributes attributes name)
unfolding parse_parts put_attributes
parse_parts_lem [] name h = refl
parse_parts_lem (a ∷ more) name (h, hs) =
    ap (λ r. r >>= (λ next. parse_parts (map part more) next)) (parse_part_lem a name h)
    ∙ parse_parts_lem more (put_attribute a name) hs

whole_lem :
    (attributes : List Attribute)
    → IsWritable attributes
    → parse_parts (split b'/' (parts_text attributes)) empty_name
      ≡ ok (put_attributes attributes empty_name)
unfolding parts_text parse_parts parse_part split put_attributes
whole_lem [] h = refl
whole_lem (a ∷ more) h =
    ap (λ ps. parse_parts ps empty_name)
      (split_at b'/' (part a ++ parts_text more) ∙ ap (λ ps. [] ∷ ps) (split-parts a more))
    ∙ parse_parts_lem (a ∷ more) empty_name h

-- A list of attributes whose values have no equals sign, no byte 0xe2, with which U+2318 begins, and no
-- backslash at their end, printed with a backslash before each delimiter, is parsed to the name with
-- these attributes, in their order; values may have delimiters.
pub parse_name-print_name :
    (attributes : List Attribute)
    → All (λ (a : Attribute). IsValue a.value) attributes
    → parse_name (print_name attributes) ≡ ok (put_attributes attributes empty_name)
unfolding parse_name
parse_name-print_name attributes h =
    ap (λ t. parse_parts (split b'/' t) empty_name) (protect-print_name attributes h)
    ∙ whole_lem attributes h
