-- ===== src/Exclusions/LastMatch.antt =====
-- `excludes` against a description of the order of its rules.
use arq_backup_tui.Common.{
  ◌≡◌, refl, sym, ◌∙◌, Bool, true, false, not, ◌&&◌, ◌||◌, Option, none, some, List, [], ◌∷◌,
  if◌then◌else◌,
}
use arq_backup_tui.Wire.Types.{Text}
use arq_backup_tui.Exclusions.Paths.{lstrip_slash, basename}
use arq_backup_tui.Exclusions.Rules.{
  Matchers, GitignoreRule, ExclusionRules, is_nil, any, matches, gitignore_loop, is_empty_rules,
  excludes,
}

-- The last rule of the list that matches.
unfoldable pub last_match : Matchers → List GitignoreRule → Text → Bool → Option GitignoreRule
last_match m [] path is_dir = none
last_match m (rule ∷ rules) path is_dir = elim (last_match m rules path is_dir) [
  | some later ↦ some later
  | none ↦ if matches m rule path is_dir then some rule else none
]

abbrev pub verdict : Option GitignoreRule → Bool → Bool
verdict none otherwise = otherwise
verdict (some rule) otherwise = not rule.negated

gitignore_loop_lem :
    (m : Matchers) (rules : List GitignoreRule) (path : Text) (is_dir excluded : Bool)
    → gitignore_loop m rules path is_dir excluded
      ≡ verdict (last_match m rules path is_dir) excluded
unfolding gitignore_loop last_match
gitignore_loop_lem m [] path is_dir excluded = refl
gitignore_loop_lem m (rule ∷ rules) path is_dir excluded =
    gitignore_loop_lem m rules path is_dir
      (if matches m rule path is_dir then not rule.negated else excluded)
    ∙ of_later (last_match m rules path is_dir) (matches m rule path is_dir)
  where
    of_later :
        (later : Option GitignoreRule) (here : Bool)
        → verdict later (if here then not rule.negated else excluded)
          ≡ verdict
              (elim later [ some l ↦ some l | none ↦ if here then some rule else none ])
              excluded
    of_later (some l) here = refl
    of_later none true = refl
    of_later none false = refl

branches :
    (empty wild regex rest : Bool)
    → (empty ≡ true → (wild || regex || rest) ≡ false)
    → (if empty then false else if wild then true else if regex then true else rest)
      ≡ (wild || regex || rest)
branches true wild regex rest h = sym (h refl)
branches false true regex rest h = refl
branches false false true rest h = refl
branches false false false rest h = refl

empty_excludes_none :
    (m : Matchers) (rules : ExclusionRules) (f g : Text → Bool) (rel_path : Text) (is_dir : Bool)
    → is_empty_rules rules ≡ true
    → (any f rules.wildcard
        || any g rules.regex
        || verdict (last_match m rules.gitignore_rules rel_path is_dir) false)
      ≡ false
unfolding is_empty_rules
empty_excludes_none m rules f g rel_path is_dir h =
    of_lists rules.wildcard rules.regex rules.gitignore_rules h
  where
    of_lists :
        (ws rs : List Text) (gs : List GitignoreRule)
        → (is_nil ws && is_nil rs && is_nil gs) ≡ true
        → (any f ws || any g rs || verdict (last_match m gs rel_path is_dir) false) ≡ false
    of_lists [] [] [] h = unfold last_match in refl
    of_lists (w ∷ ws) rs gs h = cc
    of_lists [] (r ∷ rs) gs h = cc
    of_lists [] [] (r ∷ gs) h = cc

-- A path, less its leading slashes, is excluded if its name or itself matches a wildcard, or itself a
-- regular expression; else the last gitignore rule that matches decides, by not being negated, and where
-- none matches the path is not excluded.
pub excludes-last_match :
    (m : Matchers) (rules : ExclusionRules) (path : Text) (is_dir : Bool)
    → let rel_path = lstrip_slash path in
      excludes m rules path is_dir ≡ (
        any
          (λ pattern. m.fnmatchcase (basename rel_path) pattern || m.fnmatchcase rel_path pattern)
          rules.wildcard
        || any (λ pattern. m.fullmatch rel_path pattern) rules.regex
        || verdict (last_match m rules.gitignore_rules rel_path is_dir) false)
unfolding excludes
excludes-last_match m rules path is_dir =
    let rel_path = lstrip_slash path in
    let wild = λ (pattern : Text).
      m.fnmatchcase (basename rel_path) pattern || m.fnmatchcase rel_path pattern in
    let full = λ (pattern : Text). m.fullmatch rel_path pattern in
    rw (gitignore_loop_lem m rules.gitignore_rules rel_path is_dir false) (
      branches (is_empty_rules rules) (any wild rules.wildcard) (any full rules.regex)
        (verdict (last_match m rules.gitignore_rules rel_path is_dir) false)
        (λ h. empty_excludes_none m rules wild full rel_path is_dir h))
