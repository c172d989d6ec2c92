-- ===== src/TagMatch/Plain.antt =====
-- Plain tags: the filter does not change the answer.
use vislcg.Base.{
  ℕ, suc, some, Bool, true, not, ◌&&◌, ◌||◌, if◌then◌else◌, List, ◌≡◌, arith, Bool-cases, inl, inr,
}
use vislcg.SortedVector.{elem}
use vislcg.Numeric.{NumTag}
use vislcg.Tagging.{Environment, Reading}
use vislcg.Tagging.Derived.{IsReading}
use vislcg.TagMatch.{Tag, World, Memory, match_plain_tag, match_fixed, does_tag_match_reading}

-- The hash by which a tag is looked for.
abbrev pub looked_for : Tag → ℕ
looked_for t = if t.is_failfast then t.plain_hash else t.hash

-- A plain or a fail-fast tag is looked for among the plain tags of a reading whose vectors and filters are up to date, a fail-fast
-- tag by its plain hash: it matches where that is one of the reading's tags and a plain one. The answer is then the tag's own hash,
-- and no index changes.
pub plain-elem :
    (env : Environment) (tags : ℕ) (w : World) (unif_mode bypass : Bool) (t : Tag) (r : Reading)
    (numbers : List NumTag) (m : Memory)
    → IsReading env r
    → (not t.is_special || t.is_failfast) ≡ true
    → does_tag_match_reading (suc tags) w unif_mode bypass t r numbers m
      ≡ some (
        (if elem (looked_for t) r.tags_list && not (env.tag (looked_for t)).is_special
            then t.hash
            else 0),
        m,
      )
unfolding does_tag_match_reading match_fixed match_plain_tag
plain-elem env tags w unif_mode bypass t r numbers m i p = elim (Bool-cases t.is_failfast) [
  | inl f ↦ ground (arith, f, p, i.plain.members t.plain_hash)
  | inr f ↦ ground (arith, f, p, i.plain.members t.hash, i.plain_covered t.hash)
]
