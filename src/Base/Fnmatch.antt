-- ===== src/Base/Fnmatch.antt =====
-- `fnmatch.fnmatchcase` of Python's standard library, over the code points of a text: a pattern is
-- `*`, `?`, sets such as `[a-z]` and `[!0]`, and literal characters.
use Prim.Native.Nat.{ℕ}
use Prim.Native.Char.{code}
use Prim.Native.String.{String}
use mathlib.Core.Bool.{Bool, true, false, ◌&&◌}
use mathlib.Core.List.{List, [], ◌∷◌, reverse}
use enterprise_data_access_a.Base.Tests.{if◌then◌else◌, eqb, leb, ltb}
use enterprise_data_access_a.Base.Lists.{any}

-- The code points of a text.
abbrev pub codes : String → List ℕ
codes String.[] = []
codes (String.◌∷◌ c s) = code c ∷ codes s

-- `a < b` between texts, by code points.
abbrev pub lt_codes : List ℕ → List ℕ → Bool
lt_codes xs [] = false
lt_codes [] (y ∷ ys) = true
lt_codes (x ∷ xs) (y ∷ ys) =
    let later = lt_codes xs ys in if ltb x y then true else if eqb x y then later else false

pub data Token : Type 0 where
  any_run any_one : Token
  literal : ℕ → Token
  one_of none_of : List (ℕ × ℕ) → Token

-- The ranges of a set: `a-b`, or a character alone.
ranges : List ℕ → List (ℕ × ℕ)
ranges [] = []
ranges (a ∷ []) = (a, a) ∷ []
ranges (a ∷ d ∷ []) = (a, a) ∷ (d, d) ∷ []
ranges (a ∷ d ∷ b ∷ rest) =
    let range = (a, b) ∷ ranges rest in
    let alone = (a, a) ∷ ranges (d ∷ b ∷ rest) in if eqb d b'-' then range else alone

contains : ℕ → List ℕ → Bool
contains c cs = any (λ d. eqb c d) cs

-- Behind the first character of a set, `]` closes it.
closes_later : List ℕ → Bool
closes_later [] = false
closes_later (c ∷ cs) = contains b']' cs

-- Does the `[` before this text open a set?
closes : List ℕ → Bool
unfolding contains closes_later
closes [] = false
closes (c ∷ cs) = if eqb c b'!' then closes_later cs else closes_later (c ∷ cs)

pub data Mode : Type 0 where
  outside opened negated : Mode
  inside : Bool → List ℕ → Mode

set_token : Bool → List ℕ → Token
unfolding ranges
set_token true cs = none_of (ranges (reverse cs))
set_token false cs = one_of (ranges (reverse cs))

translate : Mode → List ℕ → List Token
unfolding closes set_token
translate mode [] = []
translate outside (c ∷ cs) =
    let rest = translate outside cs in
    let set = translate opened cs in
    if eqb c b'*'
    then any_run ∷ rest
    else if eqb c b'?'
    then any_one ∷ rest
    else if eqb c b'[' && closes cs
    then set
    else literal c ∷ rest
translate opened (c ∷ cs) =
    let negative = translate negated cs in
    let positive = translate (inside false (c ∷ [])) cs in if eqb c b'!' then negative else positive
translate negated (c ∷ cs) = translate (inside true (c ∷ [])) cs
translate (inside negative seen) (c ∷ cs) =
    let done = set_token negative seen ∷ translate outside cs in
    let more = translate (inside negative (c ∷ seen)) cs in if eqb c b']' then done else more

in_ranges : ℕ → List (ℕ × ℕ) → Bool
in_ranges c rs = any (λ r. leb r.0 c && leb c r.1) rs

match_tokens : List Token → List ℕ → Bool
unfolding in_ranges
match_tokens [] [] = true
match_tokens [] (c ∷ cs) = false
match_tokens (any_run ∷ ts) [] = match_tokens ts []
match_tokens (any_run ∷ ts) (c ∷ cs) =
    let stop = match_tokens ts (c ∷ cs) in
    let more = match_tokens (any_run ∷ ts) cs in if stop then true else more
match_tokens (any_one ∷ ts) [] = false
match_tokens (any_one ∷ ts) (c ∷ cs) = match_tokens ts cs
match_tokens (literal d ∷ ts) [] = false
match_tokens (literal d ∷ ts) (c ∷ cs) =
    let rest = match_tokens ts cs in if eqb c d then rest else false
match_tokens (one_of rs ∷ ts) [] = false
match_tokens (one_of rs ∷ ts) (c ∷ cs) =
    let rest = match_tokens ts cs in if in_ranges c rs then rest else false
match_tokens (none_of rs ∷ ts) [] = false
match_tokens (none_of rs ∷ ts) (c ∷ cs) =
    let rest = match_tokens ts cs in if in_ranges c rs then false else rest

-- `fnmatchcase(name, pattern)`
unfoldable pub fnmatch : String → String → Bool
unfolding translate match_tokens
fnmatch name pattern = match_tokens (translate outside (codes pattern)) (codes name)
