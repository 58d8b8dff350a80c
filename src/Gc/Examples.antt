-- ===== src/Gc/Examples.antt =====
-- Runs over the sample destination, and the theorems on `gc_orphan_blobs` and `apply_retention` there.
use arq_backup_tui.Common.{
  arith, ◌≡◌, refl, sym, subst, true, false, none, some, List, [], ◌∷◌, inl, inr, list_eq, mem_text,
  Has,
}
use arq_backup_tui.Common.Int.{ℤ, pos}
use arq_backup_tui.Common.Result.{ok}
use arq_backup_tui.Wire.Types.{Text}
use arq_backup_tui.Wire.RoundTrip.Stored.{stored_tree, stored_children, stored_node, stored_fields}
use arq_backup_tui.Crypto.Toy.{toy, keyset, old_password}
use arq_backup_tui.Pack.Dict.{get}
use arq_backup_tui.Pack.Builder.{codes}
use arq_backup_tui.Record.Values.{get_field, truth, text_or_empty, to_int}
use arq_backup_tui.Layout.Paths.{
  join, rstrip_slash, computer_root, matches_all, computer_uuid_re, is_hex, is_hex_lower,
}
use arq_backup_tui.Record.Parse.{blobloc_to_dict}
use arq_backup_tui.Gc.Written.{loc_of_dict-blobloc_to_dict}
use arq_backup_tui.Gc.Sample.{blob}
use arq_backup_tui.Gc.Walk.{loc_of_dict, loc_of_blobloc}
use arq_backup_tui.Gc.Walk.{
  TreeLoc, or_raise, or_stuck, walk, walk_child, walk_children, expand, find, mark, gather,
  node_locs, node_data, node_fields, node_tree, pack_paths, id_of, pack_path_of, bid_of_dict,
  walk_tree_collect, walk_tree_collect_pack_paths,
}
use arq_backup_tui.Gc.Collect.{
  items_of, add_blob, add_pack_path, add_items, collect_tree, collect_node, collect_parsed,
  collect_record, collect_records, collect_folders, collect, collect_referenced_blobs,
  collect_live_pack_paths,
}
use arq_backup_tui.Gc.Spare.{IsSound}
use arq_backup_tui.Gc.Computer.{Result-cases}
use arq_backup_tui.Common.Sort.{sorted, insert_sorted}
use arq_backup_tui.Layout.Discover.{
  Arq7ComputerLayout, discover_layout, computer_layout, folder_uuids, matching_names,
}
use arq_backup_tui.Gc.Sweep.{chosen, open_keyset, gc_orphan_blobs}
use arq_backup_tui.Gc.Disk.{Disk, disk_backend, Differs, NoEntry, disk_laws}
use arq_backup_tui.Gc.Deletes.{Deletes}
use arq_backup_tui.Gc.Live.{Place, Named, RootAcl, Live}
use arq_backup_tui.Gc.Same.{InFolders}
use arq_backup_tui.Gc.OnlyObjects.{IsObjectFile, gc_orphan_blobs-only_objects}
use arq_backup_tui.Gc.Finds.{collect_referenced_blobs-Named, collect_live_pack_paths-Named}
use arq_backup_tui.Gc.Keeps.{gc_orphan_blobs-keeps}
use arq_backup_tui.Gc.Ends.{NotStuck}
use arq_backup_tui.Gc.Terminates.{gc_orphan_blobs-ends}
use arq_backup_tui.Gc.Sample.{cu, tree_id, tree_dict, pack_path, record_path, sample}
use arq_backup_tui.Gc.SamplePlaces.{root, data_place}
use arq_backup_tui.Retention.Select.{RetentionPolicy}
use arq_backup_tui.Retention.Select.{
  select_retained, is_keep_all, sort_by_date, insert_by_date, newest_first, reverse_onto, keep_last,
  keep_buckets, bucket_loop, mem_key, le_date,
}
use arq_backup_tui.Gc.Prune.{
  PruneRecordsResult, prune_folders, prune_layouts, prune_folder, prune_listed, record_refs,
  record_creation_date, date_of, prune_record, prune_refs, prune_records, apply_retention,
}
use arq_backup_tui.Gc.Apply.{apply_retention-dry_run, apply_retention-keeps}
use arq_backup_tui.Gc.Sample.{python}
use arq_backup_tui.Gc.SampleSound.{
  only_tree, data_place-Named, sample-HasPlaces, sample-IsContentAddressed, sample-IsSound,
  sample-not_RootAcl,
}
use arq_backup_tui.Gc.SampleReads.{
  sample_keyset, sample_records, sample_record, tree_loc_eq, tree_fetched,
}

abbrev in_order : List Text → List Text
in_order names = names

abbrev after_gc : Disk
after_gc =
    (gc_orphan_blobs disk_backend toy python 2 false root in_order old_password none sample).0

gc_orphan_blobs-keeps_example :
    ((place : Place)
      → Named disk_backend toy python keyset root cu sample place
      → (RootAcl disk_backend toy python keyset root cu sample place → ⊥)
      → (disk_backend.read_all after_gc place.path ≡ disk_backend.read_all sample place.path)
        × ((offset size : ℤ)
            → disk_backend.read_range after_gc place.path offset size
              ≡ disk_backend.read_range sample place.path offset size))
    × ((q : Text)
        → InFolders root cu q
        → disk_backend.read_all after_gc q ≡ disk_backend.read_all sample q)
gc_orphan_blobs-keeps_example =
    gc_orphan_blobs-keeps disk_backend toy python disk_laws root cu keyset sample sample-IsSound 2
      false old_password sample_keyset in_order none

tree_known :
    (loc : TreeLoc)
    → Live disk_backend toy python keyset root cu sample loc
    → Has (tree_id ∷ []) loc.bid
unfolding mem_text list_eq
tree_known loc live = subst (λ l. Has (tree_id ∷ []) l.bid) (sym (only_tree live)) refl

gc_orphan_blobs-ends_example :
    NotStuck
      (gc_orphan_blobs disk_backend toy python 2 false root in_order old_password
        (some cu)
        sample).1
gc_orphan_blobs-ends_example =
    gc_orphan_blobs-ends disk_backend toy python disk_laws root cu keyset sample sample-IsSound
      (tree_id ∷ []) tree_known 2 (omega arith) false old_password sample_keyset in_order

gc_orphan_blobs-only_objects_example :
    Deletes disk_backend (IsObjectFile false root) sample after_gc
gc_orphan_blobs-only_objects_example =
    gc_orphan_blobs-only_objects disk_backend toy python 2 false root in_order old_password none
      sample

tree_walked :
    walk_tree_collect disk_backend toy python keyset sample 2 tree_dict
      (record { seen = []; found = tree_id ∷ [] })
    ≡ ok (record { seen = tree_id ∷ []; found = tree_id ∷ codes "bb" ∷ [] })
unfolding walk_tree_collect bid_of_dict get_field list_eq text_or_empty mem_text expand mark
    walk_children walk_child gather node_locs node_data node_fields node_tree id_of find or_stuck
    stored_tree stored_children stored_node stored_fields
tree_walked = rw (tree_loc_eq, walk_tree_collect, tree_fetched, expand) refl

referenced :
    collect_referenced_blobs disk_backend toy python keyset sample 2 root cu
    ≡ ok (tree_id ∷ codes "bb" ∷ [])
unfolding collect_referenced_blobs collect collect_folders collect_records collect_record
    collect_parsed collect_node collect_tree add_items items_of or_raise get_field list_eq find
    add_blob truth get join computer_root rstrip_slash
referenced = rw (sample_records, sample_record, collect_parsed, tree_walked) refl

tree_walked_for_packs :
    walk_tree_collect_pack_paths disk_backend toy python keyset sample 2 tree_dict
      (record { seen = []; found = [] })
    ≡ ok (record { seen = tree_id ∷ []; found = pack_path ∷ [] })
unfolding walk_tree_collect_pack_paths walk pack_paths mem_text expand mark walk_children walk_child
    gather node_locs node_data node_fields node_tree pack_path_of find or_stuck stored_tree
    stored_children stored_node stored_fields
tree_walked_for_packs = rw (tree_loc_eq, walk_tree_collect_pack_paths, tree_fetched, expand) refl

live_paths :
    collect_live_pack_paths disk_backend toy python keyset sample 2 root cu ≡ ok (pack_path ∷ [])
unfolding collect_live_pack_paths collect collect_folders collect_records collect_record
    collect_parsed collect_node collect_tree add_items items_of or_raise get_field list_eq find
    add_pack_path truth get join computer_root rstrip_slash
live_paths = rw (sample_records, sample_record, collect_parsed, tree_walked_for_packs) refl

collect_referenced_blobs-Named_example : Has (tree_id ∷ codes "bb" ∷ []) (codes "bb")
collect_referenced_blobs-Named_example =
    collect_referenced_blobs-Named disk_backend toy python keyset root cu sample
      sample-IsContentAddressed sample-HasPlaces 2 (tree_id ∷ codes "bb" ∷ []) referenced data_place
      data_place-Named (sample-not_RootAcl data_place)

collect_live_pack_paths-Named_example : Has (pack_path ∷ []) pack_path
collect_live_pack_paths-Named_example =
    collect_live_pack_paths-Named disk_backend toy python keyset root cu sample
      sample-IsContentAddressed sample-HasPlaces 2 (pack_path ∷ []) live_paths data_place
      data_place-Named (sample-not_RootAcl data_place) refl

abbrev last_one : RetentionPolicy
last_one = record {
  keep_last_n = some (pos 1);
  keep_hourly = pos 0;
  keep_daily = pos 0;
  keep_weekly = pos 0;
  keep_monthly = pos 0;
  keep_yearly = pos 0;
}

abbrev after_pruning : Disk
after_pruning =
    (prune_records disk_backend toy python last_one false root in_order old_password none none
      sample).0

abbrev nothing_done : PruneRecordsResult
nothing_done = record { retained = []; deleted = []; failures = [] }

apply_retention-dry_run_example :
    (apply_retention disk_backend toy python last_one true root 2 in_order old_password none none
      true sample).0
    ≡ sample
apply_retention-dry_run_example =
    apply_retention-dry_run disk_backend toy python last_one true root 2 in_order old_password none
      none refl true sample

selected :
    select_retained (record { path = record_path; creation_date = pos 1_709_249_400 } ∷ []) last_one
    ≡ ok (record_path ∷ [])
unfolding select_retained is_keep_all sort_by_date insert_by_date newest_first reverse_onto
    keep_last keep_buckets bucket_loop mem_key list_eq le_date
selected = refl

folder_pruned :
    (r : PruneRecordsResult)
    → (prune_folder disk_backend toy python last_one false root keyset cu cu sample r).0 ≡ sample
unfolding prune_folder prune_listed record_refs record_creation_date date_of truth to_int get_field
    list_eq prune_refs prune_record mem_text
folder_pruned r =
    rw (sample_records, prune_folder, sample_record, record_creation_date, selected, prune_listed)
      refl

abbrev sample_layout : Arq7ComputerLayout
sample_layout = computer_layout disk_backend in_order sample root 8 true cu

computers : discover_layout disk_backend in_order sample root 8 true ≡ sample_layout ∷ []
unfolding discover_layout matching_names matches_all computer_uuid_re is_hex is_hex_lower get
    list_eq
computers = refl

folders_pruned :
    (r : PruneRecordsResult)
    → (prune_folders disk_backend toy python last_one false root keyset cu (cu ∷ []) sample r).0
      ≡ sample
unfolding prune_folders
folders_pruned r =
    let one = folder_pruned r in
    elim (Result-cases
      (prune_folder disk_backend toy python last_one false root keyset cu cu sample r).1) [
        | inl (e, failed) ↦ rw (failed, prune_folders) one
        | inr (r', returned) ↦ rw (returned, prune_folders) one
      ]

computer_pruned :
    (r : PruneRecordsResult)
    → (prune_layouts disk_backend toy python last_one false root old_password none
        (sample_layout ∷ [])
        sample
        r).0
      ≡ sample
unfolding prune_layouts computer_layout folder_uuids get list_eq join computer_root rstrip_slash
    sorted matching_names matches_all computer_uuid_re is_hex is_hex_lower insert_sorted
computer_pruned r =
    let all = folders_pruned r in
    elim (Result-cases
      (prune_folders disk_backend toy python last_one false root keyset cu (cu ∷ []) sample r).1) [
        | inl (e, failed) ↦ rw (sample_keyset, prune_layouts, failed, prune_layouts) all
        | inr (r', returned) ↦ rw (sample_keyset, prune_layouts, returned, prune_layouts) all
      ]

-- The policy keeps the one record.
sample_pruned : after_pruning ≡ sample
unfolding prune_records chosen
sample_pruned =
    let r : PruneRecordsResult = nothing_done in
    subst
      (λ layouts.
        (prune_layouts disk_backend toy python last_one false root old_password none layouts sample
          r).0
        ≡ sample)
      (sym computers) (computer_pruned r)

abbrev after_retention : Disk
after_retention =
    (apply_retention disk_backend toy python last_one false root 2 in_order old_password none none
      true sample).0

apply_retention-keeps_example :
    ((place : Place)
      → Named disk_backend toy python keyset root cu after_pruning place
      → (RootAcl disk_backend toy python keyset root cu after_pruning place → ⊥)
      → (disk_backend.read_all after_retention place.path
          ≡ disk_backend.read_all after_pruning place.path)
        × ((offset size : ℤ)
            → disk_backend.read_range after_retention place.path offset size
              ≡ disk_backend.read_range after_pruning place.path offset size))
    × ((q : Text)
        → InFolders root cu q
        → disk_backend.read_all after_retention q ≡ disk_backend.read_all after_pruning q)
apply_retention-keeps_example =
    apply_retention-keeps disk_backend toy python last_one false root 2 in_order old_password none
      none disk_laws cu keyset sample
      (subst (IsSound disk_backend toy python Differs NoEntry root cu keyset) (sym sample_pruned)
        sample-IsSound)
      (subst (λ s. open_keyset disk_backend toy root old_password s cu ≡ some keyset)
        (sym sample_pruned) sample_keyset)
      true

loc_of_dict-blobloc_to_dict_example :
    loc_of_dict python (blobloc_to_dict blob) ≡ some (loc_of_blobloc python blob)
loc_of_dict-blobloc_to_dict_example = loc_of_dict-blobloc_to_dict python blob (omega arith)
