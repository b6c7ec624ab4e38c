-- ===== src/Prelude/Disk.antt =====
-- os.Remove on a file system that is the content by path: its error is often left alone, so a call
-- says whether the file was removed.
use type_type_downloader.Prelude.{Bool, List, false, if◌then◌else◌, none, refl, true, ℕ, ◌≡◌}
use type_type_downloader.Prelude.Map.{Map, delete, get, get-delete, get-delete-none}
use type_type_downloader.Prelude.Text.{Str, str_eq, str_eq_refl}

unfoldable pub remove_file : Bool → Str → Map (List ℕ) → Map (List ℕ)
remove_file removed path files = if removed then delete path files else files

pub remove_file-other :
    (removed : Bool) (path : Str) (files : Map (List ℕ)) (j : Str)
    → str_eq path j ≡ false
    → get j (remove_file removed path files) ≡ get j files
unfolding remove_file
remove_file-other true path files j n = rw (get-delete, n) refl
remove_file-other false path files j n = refl

pub remove_file-none :
    (removed : Bool) (path : Str) (files : Map (List ℕ)) (j : Str)
    → get j files ≡ none
    → get j (remove_file removed path files) ≡ none
unfolding remove_file
remove_file-none true path files j h = get-delete-none j path files h
remove_file-none false path files j h = h

pub remove_file-gone :
    (removed : Bool) (path : Str) (files : Map (List ℕ))
    → removed ≡ true
    → get path (remove_file removed path files) ≡ none
unfolding remove_file
remove_file-gone true path files e = rw (get-delete, str_eq_refl path) refl
remove_file-gone false path files e = absurd (cc e)
