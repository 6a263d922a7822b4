-- ===== src/StdPath/Tests.antt =====
-- Runs of the path operations.
use inspec_thor.Prelude.{◌≡◌, refl, true, false, [], codes}
use inspec_thor.StdPath.{filename, extension, parent_path, is_absolute, ◌//◌}

filename_plain : filename (codes "C:\\a/b.exe") ≡ codes "b.exe"
unfolding filename
filename_plain = refl

filename_drive : filename (codes "C:x.exe") ≡ codes "x.exe"
unfolding filename
filename_drive = refl

filename_server : filename (codes "\\\\srv") ≡ []
unfolding filename
filename_server = refl

extension_last : extension (codes "a\\b.tar.GZ") ≡ codes ".GZ"
unfolding extension
extension_last = refl

extension_hidden : extension (codes "C:\\.bat") ≡ []
unfolding extension
extension_hidden = refl

parent_path_root : parent_path (codes "C:\\a.bat") ≡ codes "C:\\"
unfolding parent_path
parent_path_root = refl

parent_path_deep : parent_path (codes "C:\\a\\\\b") ≡ codes "C:\\a"
unfolding parent_path
parent_path_deep = refl

is_absolute_drive : is_absolute (codes "C:\\a") ≡ true
unfolding is_absolute
is_absolute_drive = refl

is_absolute_rooted : is_absolute (codes "\\a") ≡ false
unfolding is_absolute
is_absolute_rooted = refl

join_plain : codes "C:\\Windows" // codes "System32" ≡ codes "C:\\Windows\\System32"
unfolding ◌//◌
join_plain = refl
