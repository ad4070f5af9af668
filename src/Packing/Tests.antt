-- ===== src/Packing/Tests.antt =====
-- A packing of two segments that is cut off while it unlinks.
use bybitflow.Prelude.{◌≡◌, refl, true, some, [], ◌∷◌}
use bybitflow.Packing.Disk.{
  Kind, raw, parquet, manifest, Disk, content_of, unlinked, pack_of, entries_of, archive_of,
  read_archive, archived_bytes, held_bytes, raw_bytes, packed_record, same_kind,
}
use bybitflow.Packing.Pack.{
  Stage, over, write_archive, begin_pack, go_on, stop, begin, next, advance, names_of, gather,
  verified, write_gathered, compare_entries, commit, with_packs,
}
use bybitflow.Packing.Stages.{IsConsistent}
use bybitflow.Packing.Lossless.{raw_bytes-Reach}

abbrev recorded_disk : Disk
recorded_disk = record {
  files =
      (record { name = record { id = 1; kind = raw }; content = 11 })
      ∷ (record { name = record { id = 1; kind = parquet }; content = 12 })
      ∷ (record { name = record { id = 1; kind = manifest }; content = 13 })
      ∷ (record { name = record { id = 2; kind = raw }; content = 21 })
      ∷ (record { name = record { id = 2; kind = parquet }; content = 22 })
      ∷ (record { name = record { id = 2; kind = manifest }; content = 23 })
      ∷ [];
  archives = [];
  packs = [];
  has_segment = λ id. true;
}

recorded-IsConsistent : IsConsistent recorded_disk
unfolding pack_of archived_bytes archive_of read_archive
recorded-IsConsistent = record { refs = λ id a e. cc; agree = λ n c e x y. cc }

-- Where the packing is cut off.
abbrev cut_off : Stage × Disk
cut_off = (
  over,
  record recorded_disk {
    files =
        (record { name = record { id = 1; kind = manifest }; content = 13 })
        ∷ (record { name = record { id = 2; kind = raw }; content = 21 })
        ∷ (record { name = record { id = 2; kind = parquet }; content = 22 })
        ∷ (record { name = record { id = 2; kind = manifest }; content = 23 })
        ∷ [];
    archives = (record { id = 7; entries = recorded_disk.files }) ∷ [];
    packs =
        (record { segment_id = 2; archive = 7 }) ∷ (record { segment_id = 1; archive = 7 }) ∷ [];
  },
)

-- The first two files are unlinked; the raw one is read from the archive.
raw_bytes-Reach_example :
    (some 11 ≡ raw_bytes (record { id = 1; kind = raw }) recorded_disk)
    × ((k : Kind)
        → held_bytes (record { id = 1; kind = k }) cut_off.1
          ≡ held_bytes (record { id = 1; kind = k }) recorded_disk)
unfolding write_archive write_gathered gather names_of content_of advance compare_entries verified
    commit with_packs pack_of entries_of packed_record archive_of read_archive archived_bytes
    raw_bytes held_bytes unlinked same_kind
raw_bytes-Reach_example =
    raw_bytes-Reach (λ n c. c) (λ n. true) (λ c. c) (λ x y e. e) recorded_disk cut_off.0 cut_off.1 1
      recorded-IsConsistent
      (next
        (next
          (next
            (next
              (next (next (next begin (begin_pack 7 (1 ∷ 2 ∷ []) refl refl)) (go_on true))
                (go_on true))
              (go_on true))
            (go_on true))
          (go_on true))
        stop)
