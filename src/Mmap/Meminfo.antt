-- ===== src/Mmap/Meminfo.antt =====
-- `get_hugepage_info` of xdp-socket/src/mmap.rs. Text is a list of code points; the lines of the file
-- /proc/meminfo, and the errors of opening and reading it, are an argument.
use xdp_rs.Prelude.{
  ℕ, ◌+◌, ◌-◌, ◌*◌, Bool, true, false, ◌&&◌, ◌||◌, Option, none, some, List, [], ◌∷◌, Result, ok,
  err, IoError, other, ltb, leb, ◌==◌, if◌then◌else◌,
}
use xdp_rs.Prelude.Words.{u64_mod}
use xdp_rs.Mmap.{HugePageInfo}

abbrev pub Text : Type 0
Text = List ℕ

abbrev pub same_text : Text → Text → Bool
same_text [] [] = true
same_text [] (d ∷ ds) = false
same_text (c ∷ cs) [] = false
same_text (c ∷ cs) (d ∷ ds) = c == d && same_text cs ds

-- `split(':')`
abbrev pub in_front : ℕ → List Text → List Text
in_front c [] = (c ∷ []) ∷ []
in_front c (part ∷ parts) = (c ∷ part) ∷ parts

abbrev pub split : Text → List Text
split [] = [] ∷ []
split (c ∷ cs) = let parts = split cs in if c == 58 then [] ∷ parts else in_front c parts

-- The property White_Space of Unicode.
abbrev pub is_white : ℕ → Bool
is_white c =
    leb 9 c && leb c 13
    || c == 32
    || c == 133
    || c == 160
    || c == 5760
    || leb 8192 c && leb c 8202
    || c == 8232
    || c == 8233
    || c == 8239
    || c == 8287
    || c == 12288

abbrev pub trim_start : Text → Text
trim_start [] = []
trim_start (c ∷ cs) = let rest = trim_start cs in if is_white c then rest else c ∷ cs

abbrev pub unless_blank : ℕ → Text → Text
unless_blank c [] = if is_white c then [] else c ∷ []
unless_blank c (d ∷ ds) = c ∷ d ∷ ds

abbrev pub trim_end : Text → Text
trim_end [] = []
trim_end (c ∷ cs) = unless_blank c (trim_end cs)

abbrev pub trim : Text → Text
trim cs = trim_end (trim_start cs)

-- Whether a text is " kB" repeated.
abbrev pub all_kb : Text → Bool
all_kb [] = true
all_kb (a ∷ []) = false
all_kb (a ∷ b ∷ []) = false
all_kb (a ∷ b ∷ c ∷ rest) = (a == 32 && b == 107 && c == 66) && all_kb rest

-- `trim_end_matches(" kB")`: the longest end that is " kB" repeated is cut off.
abbrev pub trim_end_matches : Text → Text
trim_end_matches [] = []
trim_end_matches (c ∷ cs) =
    let rest = trim_end_matches cs in if all_kb (c ∷ cs) then [] else c ∷ rest

-- `u64::from_str`: an optional plus sign and at least one digit.
abbrev pub from_digits : ℕ → Text → Option ℕ
from_digits acc [] = some acc
from_digits acc (c ∷ cs) =
    let next = acc * 10 + (c - 48) in
    let rest = from_digits next cs in
    if leb 48 c && leb c 57 && ltb next u64_mod then rest else none

abbrev pub unsigned : Text → Option ℕ
unsigned [] = none
unsigned (c ∷ cs) = from_digits 0 (c ∷ cs)

abbrev pub parse : Text → Option ℕ
parse [] = none
parse (c ∷ cs) = if c == 43 then unsigned cs else from_digits 0 (c ∷ cs)

abbrev pub hugepagesize : Text
hugepagesize = 72 ∷ 117 ∷ 103 ∷ 101 ∷ 112 ∷ 97 ∷ 103 ∷ 101 ∷ 115 ∷ 105 ∷ 122 ∷ 101 ∷ []

abbrev pub hugepages_total : Text
hugepages_total =
    72 ∷ 117 ∷ 103 ∷ 101 ∷ 80 ∷ 97 ∷ 103 ∷ 101 ∷ 115 ∷ 95 ∷ 84 ∷ 111 ∷ 116 ∷ 97 ∷ 108 ∷ []

abbrev pub hugepages_free : Text
hugepages_free = 72 ∷ 117 ∷ 103 ∷ 101 ∷ 80 ∷ 97 ∷ 103 ∷ 101 ∷ 115 ∷ 95 ∷ 70 ∷ 114 ∷ 101 ∷ 101 ∷ []

-- `value_str.parse().map_err(io::Error::other)?` and what is then stored.
abbrev pub stored : (ℕ → HugePageInfo) → Option ℕ → Result HugePageInfo IoError
stored f none = err (other "invalid digit found in string")
stored f (some n) = ok (f n)

-- The `match` on the key.
abbrev pub store : HugePageInfo → Text → Text → Result HugePageInfo IoError
store info key value =
    if same_text key hugepagesize
    then stored (λ n. record info { size_kb = some n }) (parse value)
    else if same_text key hugepages_total
    then stored (λ n. record info { total = some n }) (parse value)
    else if same_text key hugepages_free
    then stored (λ n. record info { free = some n }) (parse value)
    else ok info

-- The body of the loop: a line with one colon is looked at.
abbrev pub read_parts : HugePageInfo → List Text → Result HugePageInfo IoError
read_parts info [] = ok info
read_parts info (key ∷ []) = ok info
read_parts info (key ∷ value ∷ []) = store info (trim key) (trim_end_matches (trim value))
read_parts info (key ∷ value ∷ more ∷ parts) = ok info

unfoldable pub read_line : HugePageInfo → Text → Result HugePageInfo IoError
read_line info line = read_parts info (split line)

unfoldable pub read_lines : HugePageInfo → List (Result Text IoError) → Result HugePageInfo IoError
read_lines info [] = ok info
read_lines info (err e ∷ rest) = err e
read_lines info (ok line ∷ rest) = elim (read_line info line) [
  | err e ↦ err e
  | ok next ↦ read_lines next rest
]

abbrev pub from_file : Result (List (Result Text IoError)) IoError → Result HugePageInfo IoError
from_file (err e) = err e
from_file (ok lines) = read_lines (record { size_kb = none; total = none; free = none }) lines

unfoldable pub get_hugepage_info :
    Result (List (Result Text IoError)) IoError → Result HugePageInfo IoError
get_hugepage_info file = from_file file
