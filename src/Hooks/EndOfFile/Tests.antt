-- ===== src/Hooks/EndOfFile/Tests.antt =====
-- crates/prek/src/hooks/pre_commit_hooks/fix_end_of_file.rs: runs over concrete files.
use prek.Prelude.{◌≡◌, refl, [], true, false, some, codes, eq_bytes}
use prek.Hooks.Output.{FileRun, unchanged}
use prek.Hooks.EndOfFile.{fixed_file_len, fix_file_sync, fix_file}
use prek.Hooks.EndOfFile.Fixes.{sync-body, fix_file_idem, fix_file_check}

crlf_tail : fixed_file_len (codes "ab\r\n\r\n") ≡ some 4
unfolding fixed_file_len
crlf_tail = refl

lf_added : fix_file_sync false (codes "ab") ≡ some (true, codes "ab\n")
unfolding fix_file_sync fixed_file_len
lf_added = refl

sync-body_example : fix_file_sync false (codes "ab\n\n") ≡ some (true, codes "ab\n")
unfolding eq_bytes
sync-body_example = sync-body (codes "a") b'b' (codes "\n\n") refl (refl, (refl, tt))

fix_file_idem_example :
    (r : FileRun) × (fix_file false (codes "f") (codes "ab\n\n") ≡ some r)
    × (fix_file false (codes "f") r.content
        ≡ some (record { result = unchanged 0 []; content = r.content }))
fix_file_idem_example = fix_file_idem (codes "f") (codes "ab\n\n")

fix_file_check_example :
    (r : FileRun) × (fixed : FileRun) × (fix_file true (codes "f") (codes "ab") ≡ some r)
    × (fix_file false (codes "f") (codes "ab") ≡ some fixed)
    × (r.content ≡ codes "ab")
    × (r.result.exit_status ≡ fixed.result.exit_status)
fix_file_check_example = fix_file_check (codes "f") (codes "ab")
