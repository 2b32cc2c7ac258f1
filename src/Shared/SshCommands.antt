-- ===== src/Shared/SshCommands.antt =====
-- control_station_lite/shared/ssh_commands.py: the commands that the control station sends over SSH,
-- by platform, and those that the gateway of a target permits.
use csl.Prelude.{if◌then◌else◌, Text, codes, ◌==◌, Text_Eq, Option, none, some, List, [], ◌∷◌, ◌++◌}

abbrev pub linux_name : Text
linux_name = codes "linux"

abbrev pub windows_name : Text
windows_name = codes "windows"

abbrev pub macos_name : Text
macos_name = codes "macos"

-- `WAKEUP_CMD.get(platform)`
unfoldable pub wakeup_cmd : Text → Option Text
wakeup_cmd platform =
    if platform == linux_name
    then some (codes "systemctl --user start csl-agent")
    else if platform == windows_name
    then some (codes "schtasks /run /tn \"CSL-Agent\"")
    else if platform == macos_name
    then some (codes "launchctl kickstart \"gui/$UID/com.controlstationlite.agent\"")
    else none

-- `CONFIG_READ_CMD.get(platform)`
unfoldable pub config_read_cmd : Text → Option Text
config_read_cmd platform =
    if platform == linux_name
    then some (codes "cat ~/.csl/config.yaml")
    else if platform == macos_name
    then some (codes "cat ~/.csl/config.yaml")
    else if platform == windows_name
    then some (
        codes
          "powershell -Command \"Get-Content (Join-Path $env:USERPROFILE \\\".csl\\config.yaml\\\")\"")
    else none

abbrev pub listed : Option Text → List Text
listed none = []
listed (some c) = c ∷ []

-- `allowed_commands`, a set
unfoldable pub allowed_commands : Text → List Text
allowed_commands platform = listed (wakeup_cmd platform) ++ listed (config_read_cmd platform)
