-- ===== src/Service/Links/Keys.antt =====
-- The links of one result.
use mathlib.Core.Bool.{false≢true}
use roborecon.Prelude.{
  ℕ, ◌==◌, codes, text_eq, Bool, false, ◌&&◌, ◌≡◌, refl, sym, ap, ◌∙◌, ◌⊎◌, inl, inr, some, List,
  [], ◌∷◌, ◌++◌, map, Option-cases, Member, map-Member, append-Member, All, All-map, All-member,
  all-All, any,
}
use roborecon.Prelude.Dict.{DistinctKeys, lookup}
use roborecon.Rows.{ReconciliationResult, MatchLink}
use roborecon.Engine.Model.{EngineOutcome}
use roborecon.Service.{
  Source, source_type_of, source_id_of, Snapshot, sources_of, id_eq, source_index,
}
use roborecon.Service.Links.{
  LinkDraft, NewIds, draft_of, selected_drafts, primary_drafts, stage_drafts, link_drafts, same_key,
  unseen, link_of, result_links,
}
use roborecon.Service.Links.Unseen.{same_key→≡, unseen-distinct, unseen-Member, unseen-keeps}
use roborecon.Service.Links.Known.{Referable, link_drafts-Referable}

-- equality of the keys of two links
abbrev pub same_link : MatchLink → MatchLink → Bool
same_link a b = text_eq a.source_type b.source_type && (a.source_id == b.source_id)

-- A link of the result, to its primary source or to a record of the snapshot.
abbrev pub IsLinkOf :
    {C : Type 0} → ReconciliationResult C → EngineOutcome → Snapshot → MatchLink → Type 0
IsLinkOf result outcome s l =
    (l.result_id ≡ result.id)
    × (l.autonomous ≡ outcome.autonomous)
    × (((result.primary_source_id ≡ some l.source_id)
          × (l.source_type ≡ result.primary_source_type))
        ⊎ ((src : Source) × Member src (sources_of s)
            × (l.source_type ≡ source_type_of src)
            × (l.source_id ≡ source_id_of src)))

module _ {C : Type 0} (ids : NewIds) (s : Snapshot) (result : ReconciliationResult C)
    (outcome : EngineOutcome) where
  map_link-distinct :
      (ds : List LinkDraft)
      → DistinctKeys same_key (λ d. d) ds
      → DistinctKeys same_link (λ l. l) (map (link_of ids result outcome) ds)
  unfolding link_of same_key
  map_link-distinct [] h = tt
  map_link-distinct (d ∷ ds) h = (
    All-map (λ l. same_link (link_of ids result outcome d) l ≡ false) (link_of ids result outcome)
        ds h.0,
    map_link-distinct ds h.1,
  )

  link_of-IsLinkOf :
      (d : LinkDraft)
      → Referable s result.primary_source_type result.primary_source_id d
      → IsLinkOf result outcome s (link_of ids result outcome d)
  unfolding link_of
  link_of-IsLinkOf d (inl h) = (refl, refl, inl h)
  link_of-IsLinkOf d (inr (src, m, same)) = (refl, refl, inr (src, m, same.0, same.1))

  selected_drafts-Member :
      (id : ℕ) (src : Source) (selected : List ℕ)
      → Member id selected
      → lookup id_eq id (source_index s) ≡ some src
      → Member (draft_of (codes "selected") src) (selected_drafts (source_index s) selected)
  unfolding selected_drafts
  selected_drafts-Member id src [] m h = absurd m.1
  selected_drafts-Member id src (n ∷ ns) (inl e) h =
      rw (selected_drafts, ap (λ k. lookup id_eq k (source_index s)) (sym e) ∙ h) (inl refl)
  selected_drafts-Member id src (n ∷ ns) (inr m) h =
      elim (Option-cases (lookup id_eq n (source_index s))) [
        | inl missing ↦ rw (selected_drafts, missing) (selected_drafts-Member id src ns m h)
        | inr (other, found) ↦
            rw (selected_drafts, found) (inr (selected_drafts-Member id src ns m h))
      ]

  -- No two links of a result refer to the same source. Each link is a system link of the result, and
  -- refers to its primary source or to a record of the snapshot.
  pub result_links_sound :
      let links = result_links ids (source_index s) result outcome in
      DistinctKeys same_link (λ l. l) links × All (IsLinkOf result outcome s) links
  unfolding result_links link_of
  result_links_sound =
      let drafts = link_drafts (source_index s) result outcome.selected_ids in
      (
        map_link-distinct (unseen [] drafts) (unseen-distinct [] drafts).0,
        All-map (IsLinkOf result outcome s) (link_of ids result outcome) (unseen [] drafts) (
            all-All _ (unseen [] drafts) (λ d m. link_of-IsLinkOf d (
              All-member (Referable s result.primary_source_type result.primary_source_id) d drafts
                (link_drafts-Referable s result outcome.selected_ids)
                (unseen-Member d [] drafts m)))),
      )

  -- Each selected id that the snapshot has is the source of a link of the result.
  pub result_links-selected :
      (id : ℕ) (src : Source)
      → Member id outcome.selected_ids
      → lookup id_eq id (source_index s) ≡ some src
      → (l : MatchLink) × Member l (result_links ids (source_index s) result outcome)
        × (l.source_type ≡ source_type_of src)
        × (l.source_id ≡ source_id_of src)
  unfolding result_links link_drafts link_of any
  result_links-selected id src m h =
      let drafts = link_drafts (source_index s) result outcome.selected_ids in
      let primary = primary_drafts result.primary_source_type result.primary_source_id in
      let rest =
        stage_drafts result.stage (source_index s) result.primary_source_id outcome.selected_ids in
      let d = draft_of (codes "selected") src in
      let there =
        append-Member d (primary ++ selected_drafts (source_index s) outcome.selected_ids) rest (
          inl (
            append-Member d primary (selected_drafts (source_index s) outcome.selected_ids)
              (inr (selected_drafts-Member id src outcome.selected_ids m h)))) in
      elim (unseen-keeps d [] drafts there) [
        | inl never ↦ absurd (false≢true never)
        | inr (e, kept, same) ↦
            let (t, i) = same_key→≡ d e same in
            (
              link_of ids result outcome e,
              map-Member (link_of ids result outcome) e (unseen [] drafts) kept,
              sym t,
              sym i,
            )
      ]
