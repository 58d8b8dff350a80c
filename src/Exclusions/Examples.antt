-- ===== src/Exclusions/Examples.antt =====
-- Exclusion rules with an fnmatch that knows plain texts and a leading asterisk.
use arq_backup_tui.Common.{◌≡◌, refl, Bool, true, false, ◌&&◌, ◌||◌, [], ◌∷◌, All, list_eq, ◌==◌}
use arq_backup_tui.Wire.Types.{Text}
use arq_backup_tui.Pack.Builder.{codes}
use arq_backup_tui.Exclusions.Paths.{
  IsSuffix, lstrip_slash, split_slash, last_part, join_slash, joined_tails, basename, path_suffixes,
  path_suffixes-IsSuffix,
}
use arq_backup_tui.Exclusions.Rules.{
  Matchers, ExclusionRules, any, candidates, matches, gitignore_loop, is_empty_rules, excludes,
  lstrip, rstrip, strip_slash, parse_line, parse_gitignore, rules_of,
}
use arq_backup_tui.Exclusions.LastMatch.{last_match, verdict, excludes-last_match}

abbrev ends_with : Text → Text → Bool
ends_with [] suffix = list_eq [] suffix
ends_with (c ∷ cs) suffix = list_eq (c ∷ cs) suffix || ends_with cs suffix

abbrev simple_match : Text → Text → Bool
simple_match name [] = list_eq name []
simple_match name (p ∷ ps) = (p == 0x2a) && ends_with name ps || list_eq name (p ∷ ps)

abbrev simple : Matchers
simple = record { fnmatchcase = simple_match; fullmatch = list_eq }

abbrev sample_rules : ExclusionRules
sample_rules =
    rules_of (codes "*.tmp" ∷ []) []
      (codes "# caches" ∷ codes "*.log" ∷ codes " !keep.log " ∷ codes "/build/" ∷ [])

-- A later negation wins; an anchored rule for directories is for no file and not further down.
decided :
    (excludes simple sample_rules (codes "/a/x.log") false ≡ true)
    × (excludes simple sample_rules (codes "a/keep.log") false ≡ false)
    × (excludes simple sample_rules (codes "a/x.tmp") false ≡ true)
    × (excludes simple sample_rules (codes "build") true ≡ true)
    × (excludes simple sample_rules (codes "build") false ≡ false)
    × (excludes simple sample_rules (codes "a/build") true ≡ false)
unfolding excludes rules_of parse_gitignore parse_line lstrip rstrip strip_slash is_empty_rules
    gitignore_loop matches candidates basename last_part split_slash path_suffixes joined_tails
    join_slash lstrip_slash list_eq
decided = (refl, refl, refl, refl, refl, refl)

path_suffixes-IsSuffix_example : All (IsSuffix (codes "a/b/c")) (path_suffixes (codes "a/b/c"))
path_suffixes-IsSuffix_example = path_suffixes-IsSuffix (codes "a/b/c")

excludes-last_match_example : excludes simple sample_rules (codes "a/keep.log") false ≡ (
    any
      (λ pattern.
        simple_match (basename (lstrip_slash (codes "a/keep.log"))) pattern
        || simple_match (lstrip_slash (codes "a/keep.log")) pattern)
      sample_rules.wildcard
    || any (λ pattern. list_eq (lstrip_slash (codes "a/keep.log")) pattern) sample_rules.regex
    || verdict
        (last_match simple sample_rules.gitignore_rules (lstrip_slash (codes "a/keep.log")) false)
        false)
excludes-last_match_example = excludes-last_match simple sample_rules (codes "a/keep.log") false
