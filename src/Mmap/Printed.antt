-- ===== src/Mmap/Printed.antt =====
-- Reading back the lines that the kernel prints.
use xdp_rs.Prelude.{
  ℕ, zero, suc, ◌+◌, ◌-◌, ◌*◌, ◌≤◌, ◌<◌, ◌≡◌, refl, ap, ◌∙◌, arith, Bool, true, false, ◌&&◌, none,
  some, List, [], ◌∷◌, ◌++◌, Result, ok, IoError, ltb, leb, ◌==◌,
}
use xdp_rs.Prelude.Words.{u64_mod}
use xdp_rs.Mmap.{HugePageInfo}
use xdp_rs.Mmap.Meminfo.{
  Text, stored, split, is_white, trim_start, unless_blank, trim_end, trim, all_kb, trim_end_matches,
  from_digits, parse, hugepagesize, hugepages_total, hugepages_free, store, read_line, read_lines,
  get_hugepage_info,
}

-- The digits of a number, from the first on, and its value.
abbrev pub value_from : ℕ → List ℕ → ℕ
value_from acc [] = acc
value_from acc (d ∷ ds) = value_from (acc * 10 + d) ds

abbrev pub all_digits : List ℕ → Bool
all_digits [] = true
all_digits (d ∷ ds) = ltb d 10 && all_digits ds

abbrev pub show : List ℕ → Text
show [] = []
show (d ∷ ds) = (48 + d) ∷ show ds

-- `n` spaces in front.
abbrev pub indent : ℕ → Text → Text
indent zero cs = cs
indent (suc n) cs = 32 ∷ indent n cs

abbrev pub kb : Text
kb = 32 ∷ 107 ∷ 66 ∷ []

grows : (acc : ℕ) (ds : List ℕ) → acc ≤ value_from acc ds
grows acc [] = omega arith
grows acc (d ∷ ds) = omega (arith, grows (acc * 10 + d) ds)

from_digits-show :
    (acc : ℕ) (ds : List ℕ)
    → all_digits ds ≡ true
    → value_from acc ds < u64_mod
    → from_digits acc (show ds) ≡ some (value_from acc ds)
from_digits-show acc [] digits fits = refl
from_digits-show acc (d ∷ ds) digits fits =
    let back : 48 + d - 48 ≡ d = omega arith in
    let small : ltb d 10 ≡ true = ground arith in
    let rest : all_digits ds ≡ true = ground arith in
    let ran : (leb 48 (48 + d) && leb (48 + d) 57 && ltb (acc * 10 + d) u64_mod) ≡ true =
      ground (arith, grows (acc * 10 + d) ds) in
    rw (back, ran) (from_digits-show (acc * 10 + d) ds rest fits)

parse-show :
    (d : ℕ) (ds : List ℕ)
    → all_digits (d ∷ ds) ≡ true
    → value_from 0 (d ∷ ds) < u64_mod
    → parse (show (d ∷ ds)) ≡ some (value_from 0 (d ∷ ds))
parse-show d ds digits fits =
    let unsigned : (48 + d == 43) ≡ false = ground arith in
    rw unsigned (from_digits-show 0 (d ∷ ds) digits fits)

split-show :
    (ds : List ℕ) (cs : Text)
    → all_digits ds ≡ true
    → split cs ≡ cs ∷ []
    → split (show ds ++ cs) ≡ (show ds ++ cs) ∷ []
split-show [] cs digits plain = plain
split-show (d ∷ ds) cs digits plain =
    let no : (48 + d == 58) ≡ false = ground arith in
    let rest : all_digits ds ≡ true = ground arith in rw (no, split-show ds cs rest plain) refl

split-indent : (n : ℕ) (cs : Text) → split cs ≡ cs ∷ [] → split (indent n cs) ≡ indent n cs ∷ []
split-indent zero cs plain = plain
split-indent (suc n) cs plain = rw (split-indent n cs plain) refl

trim_start-indent : (n : ℕ) (cs : Text) → trim_start (indent n cs) ≡ trim_start cs
trim_start-indent zero cs = refl
trim_start-indent (suc n) cs = trim_start-indent n cs

solid : (d : ℕ) → d < 10 → is_white (48 + d) ≡ false
solid d h = ground arith

keep : (c : ℕ) (cs : Text) → is_white c ≡ false → unless_blank c cs ≡ c ∷ cs
keep c [] h = rw h refl
keep c (d ∷ ds) h = refl

trim_end-show :
    (ds : List ℕ) (cs : Text)
    → all_digits ds ≡ true
    → trim_end cs ≡ cs
    → trim_end (show ds ++ cs) ≡ show ds ++ cs
trim_end-show [] cs digits same = same
trim_end-show (d ∷ ds) cs digits same =
    let rest : all_digits ds ≡ true = ground arith in
    rw (trim_end-show ds cs rest same) (keep (48 + d) (show ds ++ cs) (solid d (ground arith)))

not_kb : (d : ℕ) (cs : Text) → all_kb ((48 + d) ∷ cs) ≡ false
not_kb d [] = refl
not_kb d (a ∷ []) = refl
not_kb d (a ∷ b ∷ rest) = ground arith

trim_end_matches-show :
    (ds : List ℕ) (cs : Text)
    → trim_end_matches cs ≡ []
    → trim_end_matches (show ds ++ cs) ≡ show ds
trim_end_matches-show [] cs cut = cut
trim_end_matches-show (d ∷ ds) cs cut =
    rw (not_kb d (show ds ++ cs)) (ap (λ t. (48 + d) ∷ t) (trim_end_matches-show ds cs cut))

-- A line of the file: a key, a colon, and a number after spaces, with a unit or without.
abbrev pub entry : Text → ℕ → List ℕ → Text → Text
entry key n ds unit = key ++ (58 ∷ indent n (show ds ++ unit))

read_value :
    (n d : ℕ) (ds : List ℕ) (unit : Text)
    → all_digits (d ∷ ds) ≡ true
    → trim_end unit ≡ unit
    → trim_end_matches unit ≡ []
    → trim_end_matches (trim (indent n (show (d ∷ ds) ++ unit))) ≡ show (d ∷ ds)
read_value n d ds unit digits same cut =
    let first : is_white (48 + d) ≡ false = solid d (ground arith) in
    rw (trim_start-indent n (show (d ∷ ds) ++ unit), first, trim_end-show (d ∷ ds) unit digits same)
      (trim_end_matches-show (d ∷ ds) unit cut)

read_line-entry :
    (info : HugePageInfo) (key : Text) (n d : ℕ) (ds : List ℕ) (unit : Text)
    → ((v : Text) → split (key ++ (58 ∷ v)) ≡ key ∷ split v)
    → trim key ≡ key
    → split unit ≡ unit ∷ []
    → trim_end unit ≡ unit
    → trim_end_matches unit ≡ []
    → all_digits (d ∷ ds) ≡ true
    → read_line info (entry key n (d ∷ ds) unit) ≡ store info key (show (d ∷ ds))
unfolding read_line
read_line-entry info key n d ds unit parts trimmed plain same cut digits =
    let whole = split-indent n (show (d ∷ ds) ++ unit) (split-show (d ∷ ds) unit digits plain) in
    rw (parts (indent n (show (d ∷ ds) ++ unit)), whole)
      (rw (trimmed, read_value n d ds unit digits same cut) refl)

stored-show :
    (f : ℕ → HugePageInfo) (d : ℕ) (ds : List ℕ)
    → all_digits (d ∷ ds) ≡ true
    → value_from 0 (d ∷ ds) < u64_mod
    → stored f (parse (show (d ∷ ds))) ≡ ok (f (value_from 0 (d ∷ ds)))
stored-show f d ds digits fits = rw (parse-show d ds digits fits) refl

read_on :
    (info after : HugePageInfo) (line : Text) (rest : List (Result Text IoError))
    → read_line info line ≡ ok after
    → read_lines info (ok line ∷ rest) ≡ read_lines after rest
unfolding read_lines
read_on info after line rest h = rw (read_lines, h) refl

-- The three lines that the kernel prints about huge pages, with any number of spaces in front of each
-- number and any decimal digits whose value is a 64-bit number, are read as those values.
pub get_hugepage_info-entry :
    (n1 d1 n2 d2 n3 d3 : ℕ) (ds1 ds2 ds3 : List ℕ)
    → all_digits (d1 ∷ ds1) ≡ true
    → all_digits (d2 ∷ ds2) ≡ true
    → all_digits (d3 ∷ ds3) ≡ true
    → value_from 0 (d1 ∷ ds1) < u64_mod
    → value_from 0 (d2 ∷ ds2) < u64_mod
    → value_from 0 (d3 ∷ ds3) < u64_mod
    → get_hugepage_info (
        ok (
          ok (entry hugepages_total n1 (d1 ∷ ds1) [])
          ∷ ok (entry hugepages_free n2 (d2 ∷ ds2) [])
          ∷ ok (entry hugepagesize n3 (d3 ∷ ds3) kb)
          ∷ []))
      ≡ ok (record {
        size_kb = some (value_from 0 (d3 ∷ ds3));
        total = some (value_from 0 (d1 ∷ ds1));
        free = some (value_from 0 (d2 ∷ ds2));
      })
unfolding get_hugepage_info read_lines
get_hugepage_info-entry n1 d1 n2 d2 n3 d3 ds1 ds2 ds3 a1 a2 a3 f1 f2 f3 =
    let none_read : HugePageInfo = record { size_kb = none; total = none; free = none } in
    let total_read : HugePageInfo = record none_read { total = some (value_from 0 (d1 ∷ ds1)) } in
    let free_read : HugePageInfo = record total_read { free = some (value_from 0 (d2 ∷ ds2)) } in
    let last : List (Result Text IoError) = ok (entry hugepagesize n3 (d3 ∷ ds3) kb) ∷ [] in
    read_on none_read total_read (entry hugepages_total n1 (d1 ∷ ds1) [])
      (ok (entry hugepages_free n2 (d2 ∷ ds2) []) ∷ last)
      (read_line-entry none_read hugepages_total n1 d1 ds1 [] (λ v. refl) refl refl refl refl a1
        ∙ stored-show (λ n. record none_read { total = some n }) d1 ds1 a1 f1)
    ∙ (read_on total_read free_read (entry hugepages_free n2 (d2 ∷ ds2) []) last (
          read_line-entry total_read hugepages_free n2 d2 ds2 [] (λ v. refl) refl refl refl refl a2
          ∙ stored-show (λ n. record total_read { free = some n }) d2 ds2 a2 f2)
        ∙ read_on free_read (record free_read { size_kb = some (value_from 0 (d3 ∷ ds3)) })
            (entry hugepagesize n3 (d3 ∷ ds3) kb) []
            (read_line-entry free_read hugepagesize n3 d3 ds3 kb (λ v. refl) refl refl refl refl a3
              ∙ stored-show (λ n. record free_read { size_kb = some n }) d3 ds3 a3 f3))
