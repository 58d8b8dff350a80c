-- ===== src/Exclusions/Rules.antt =====
-- `ExclusionRules`, `_GitignoreRule` and `_parse_gitignore`. Python's fnmatch and re are parameters: two
-- tests of a text against a pattern.
use arq_backup_tui.Common.{
  ℕ, Bool, true, false, not, ◌&&◌, ◌||◌, List, [], ◌∷◌, leb, ◌==◌, if◌then◌else◌,
}
use arq_backup_tui.Wire.Types.{Text}
use arq_backup_tui.Exclusions.Paths.{slash, lstrip_slash, basename, path_suffixes}

-- `fnmatch.fnmatchcase(name, pattern)`, and `fullmatch` of a compiled expression.
pub record Matchers : Type 0 where
  pub fnmatchcase : Text → Text → Bool
  pub fullmatch : Text → Text → Bool

pub record GitignoreRule : Type 0 where
  pub pattern : Text
  pub negated : Bool
  pub anchored : Bool
  pub dir_only : Bool

pub record ExclusionRules : Type 0 where
  pub wildcard : List Text
  pub regex : List Text
  pub gitignore_rules : List GitignoreRule

abbrev pub is_nil {ℓ} : {A : Type ℓ} → List A → Bool
is_nil [] = true
is_nil (x ∷ xs) = false

abbrev pub any {ℓ} : {A : Type ℓ} → (A → Bool) → List A → Bool
any f [] = false
any f (x ∷ xs) = f x || any f xs

unfoldable pub candidates : GitignoreRule → Text → List Text
candidates rule rel_path =
    if rule.anchored then rel_path ∷ [] else rel_path ∷ basename rel_path ∷ path_suffixes rel_path

unfoldable pub matches : Matchers → GitignoreRule → Text → Bool → Bool
matches m rule rel_path is_dir =
    if rule.dir_only && not is_dir
    then false
    else any (λ candidate. m.fnmatchcase candidate rule.pattern) (candidates rule rel_path)

-- The loop over the gitignore rules, with `excluded` so far.
unfoldable pub gitignore_loop : Matchers → List GitignoreRule → Text → Bool → Bool → Bool
gitignore_loop m [] rel_path is_dir excluded = excluded
gitignore_loop m (rule ∷ rules) rel_path is_dir excluded =
    gitignore_loop m rules rel_path is_dir
      (if matches m rule rel_path is_dir then not rule.negated else excluded)

unfoldable pub is_empty_rules : ExclusionRules → Bool
is_empty_rules rules = is_nil rules.wildcard && is_nil rules.regex && is_nil rules.gitignore_rules

unfoldable pub excludes : Matchers → ExclusionRules → Text → Bool → Bool
excludes m rules path is_dir =
    let rel_path = lstrip_slash path in
    let name = basename rel_path in
    if is_empty_rules rules
    then false
    else if any (λ pattern. m.fnmatchcase name pattern || m.fnmatchcase rel_path pattern)
        rules.wildcard
    then true
    else if any (λ pattern. m.fullmatch rel_path pattern) rules.regex
    then true
    else gitignore_loop m rules.gitignore_rules rel_path is_dir false

-- The characters that `strip` takes off.
abbrev pub is_space : ℕ → Bool
is_space c =
    leb 9 c && leb c 13
    || leb 28 c && leb c 32
    || c == 0x85
    || c == 0xa0
    || c == 0x1680
    || leb 0x2000 c && leb c 0x200a
    || c == 0x2028
    || c == 0x2029
    || c == 0x202f
    || c == 0x205f
    || c == 0x3000

unfoldable pub lstrip : Text → Text
lstrip [] = []
lstrip (c ∷ cs) = let rest = lstrip cs in if is_space c then rest else c ∷ cs

unfoldable pub rstrip : Text → Text
rstrip [] = []
rstrip (c ∷ cs) = let rest = rstrip cs in if is_space c && is_nil rest then [] else c ∷ rest

-- `line.startswith(c)` and `line[1:]`, together.
abbrev strip_first : ℕ → Text → Bool × Text
strip_first c [] = (false, [])
strip_first c (d ∷ ds) = if d == c then (true, ds) else (false, d ∷ ds)

-- `line.endswith("/")` and `line[:-1]`, together.
unfoldable pub strip_slash : Text → Bool × Text
strip_slash [] = (false, [])
strip_slash (c ∷ []) = if c == slash then (true, []) else (false, c ∷ [])
strip_slash (c ∷ d ∷ ds) = let (found, rest) = strip_slash (d ∷ ds) in (found, c ∷ rest)

abbrev is_comment : Text → Bool
is_comment [] = true
is_comment (c ∷ cs) = c == 0x23

-- One line, with the rules of the lines behind it.
unfoldable pub parse_line : Text → List GitignoreRule → List GitignoreRule
parse_line raw rules =
    let line = rstrip (lstrip raw) in
    let (negated, unsigned) = strip_first 0x21 line in
    let trimmed = if negated then lstrip unsigned else unsigned in
    let (anchored, unanchored) = strip_first slash trimmed in
    let (dir_only, pattern) = strip_slash unanchored in
    if is_comment line || is_nil pattern
    then rules
    else record { pattern = pattern; negated = negated; anchored = anchored; dir_only = dir_only }
      ∷ rules

unfoldable pub parse_gitignore : List Text → List GitignoreRule
parse_gitignore [] = []
parse_gitignore (raw ∷ lines) = parse_line raw (parse_gitignore lines)

-- `ExclusionRules.of`, for expressions that compile.
unfoldable pub rules_of : List Text → List Text → List Text → ExclusionRules
rules_of wildcard regex gitignore_lines = record {
  wildcard = wildcard;
  regex = regex;
  gitignore_rules = parse_gitignore gitignore_lines;
}
