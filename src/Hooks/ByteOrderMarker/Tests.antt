-- ===== src/Hooks/ByteOrderMarker/Tests.antt =====
-- crates/prek/src/hooks/pre_commit_hooks/fix_byte_order_marker.rs: runs over concrete files.
use prek.Prelude.{◌≡◌, refl, ◌++◌, false, true, some, codes, eq_bytes}
use prek.Hooks.Output.{FileRun, modified}
use prek.Hooks.ByteOrderMarker.{utf8_bom, fix_file, fix_file_sync, shift_blocks, overwrite}
use prek.Hooks.ByteOrderMarker.Shift.{fix_file-without_bom}

shifted : fix_file_sync false (utf8_bom ++ codes "ab") ≡ some (true, codes "ab")
unfolding fix_file_sync shift_blocks overwrite eq_bytes
shifted = refl

fix_file-without_bom_example :
    (r : FileRun) × (fix_file false (codes "f") (utf8_bom ++ codes "ab") ≡ some r)
    × (r.content ≡ codes "ab")
    × (r.result.exit_status ≡ 1)
    × (r.result.file_changes ≡ modified)
unfolding eq_bytes
fix_file-without_bom_example = fix_file-without_bom false (codes "f") (utf8_bom ++ codes "ab")
