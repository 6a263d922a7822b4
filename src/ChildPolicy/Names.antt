-- ===== src/ChildPolicy/Names.antt =====
-- `ProcessImageName`, and the two lists of executables.
use inspec_thor.Prelude.{◌||◌, [], ◌∷◌, List, Text, literal, lower, is_empty, ◌==◌, if◌then◌else◌}
use inspec_thor.StdPath.{filename, take_until}

-- The executable that a command line begins with, quoted or not.
unfoldable pub command_executable : Text → Text
command_executable [] = []
command_executable (c ∷ line) =
    if c == b'"'
    then take_until (λ d. d == b'"') line
    else take_until (λ d. d == b' ' || d == b'\t') (c ∷ line)

unfoldable pub process_image_name : Text → Text → Text
process_image_name image_path command_line =
    lower (filename (if is_empty image_path then command_executable command_line else image_path))

unfoldable pub inject_names : List Text
inject_names =
    literal "powershell.exe"
    ∷ literal "pwsh.exe"
    ∷ literal "cmd.exe"
    ∷ literal "rundll32.exe"
    ∷ literal "regsvr32.exe"
    ∷ literal "mshta.exe"
    ∷ literal "wscript.exe"
    ∷ literal "cscript.exe"
    ∷ literal "msiexec.exe"
    ∷ literal "control.exe"
    ∷ literal "installutil.exe"
    ∷ literal "regasm.exe"
    ∷ literal "regsvcs.exe"
    ∷ literal "msbuild.exe"
    ∷ literal "csc.exe"
    ∷ literal "vbc.exe"
    ∷ literal "certutil.exe"
    ∷ literal "bitsadmin.exe"
    ∷ literal "curl.exe"
    ∷ literal "wget.exe"
    ∷ literal "python.exe"
    ∷ literal "node.exe"
    ∷ literal "java.exe"
    ∷ []

unfoldable pub command_only_names : List Text
command_only_names =
    literal "whoami.exe"
    ∷ literal "hostname.exe"
    ∷ literal "ipconfig.exe"
    ∷ literal "systeminfo.exe"
    ∷ literal "tasklist.exe"
    ∷ literal "net.exe"
    ∷ literal "net1.exe"
    ∷ literal "reg.exe"
    ∷ literal "sc.exe"
    ∷ literal "schtasks.exe"
    ∷ literal "ping.exe"
    ∷ literal "findstr.exe"
    ∷ literal "query.exe"
    ∷ literal "quser.exe"
    ∷ literal "qwinsta.exe"
    ∷ literal "nslookup.exe"
    ∷ literal "arp.exe"
    ∷ literal "route.exe"
    ∷ literal "cmdkey.exe"
    ∷ literal "nltest.exe"
    ∷ []
