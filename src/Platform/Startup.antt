-- ===== src/Platform/Startup.antt =====
-- crates/platform/src/startup.rs: the command lines, scripts and the property list that install,
-- prepare and remove the service. A text is the list of its code points; a path is the text that
-- `display` and `to_string_lossy` make of it, with `/` between its parts (the scripts with `join` are
-- those of macOS).
use Prim.Native.String.{String}
use easy_job.Prelude.{ℕ, Bool, true, false, ◌==◌, if◌then◌else◌, List, [], ◌∷◌, ◌++◌}
use easy_job.Scheduler.Evaluator.Cron.{codes, is_whitespace}
mod Quoting
mod Examples

abbrev pub Text : Type 0
Text = List ℕ

-- `concat!` and `format!` of texts one after the other.
abbrev pub format : List Text → Text
format [] = []
format (t ∷ ts) = t ++ format ts

-- `s.replace(c, with)` for a character `c`.
abbrev pub replace : ℕ → Text → Text → Text
replace c new [] = []
replace c new (d ∷ s) = if d == c then new ++ replace c new s else d ∷ replace c new s

abbrev pub quote : ℕ
quote = 39

abbrev pub double_quote : ℕ
double_quote = 34

unfoldable pub windows_service_image_path : Text → Text → Text
windows_service_image_path agent_exe data_dir = format (
    (double_quote ∷ [])
    ∷ agent_exe
    ∷ (double_quote ∷ codes " --service --data-dir ")
    ∷ (double_quote ∷ [])
    ∷ data_dir
    ∷ (double_quote ∷ [])
    ∷ [])

unfoldable pub quote_ps_arg : Text → Text
quote_ps_arg s = format ((quote ∷ []) ∷ replace quote (quote ∷ quote ∷ []) s ∷ (quote ∷ []) ∷ [])

unfoldable pub elevated_ps : Text → Text × List Text
elevated_ps script = (
  codes "powershell.exe",
  codes "-NoProfile"
      ∷ codes "-NonInteractive"
      ∷ codes "-Command"
      ∷ format (
          codes "Start-Process powershell.exe -ArgumentList "
          ∷ quote_ps_arg (codes "-NoProfile -NonInteractive -Command " ++ script)
          ∷ codes " -Verb RunAs -Wait"
          ∷ [])
      ∷ [],
)

unfoldable pub windows_install_elevated_ps : Text → Text → Text × List Text
windows_install_elevated_ps agent_exe data_dir = elevated_ps (
    format (
      codes "& "
      ∷ quote_ps_arg agent_exe
      ∷ codes " --install-service --data-dir "
      ∷ quote_ps_arg data_dir
      ∷ []))

unfoldable pub windows_uninstall_elevated_ps : Text → Text × List Text
windows_uninstall_elevated_ps agent_exe =
    elevated_ps (format (codes "& " ∷ quote_ps_arg agent_exe ∷ codes " --uninstall-service" ∷ []))

unfoldable pub windows_prepare_data_dir_elevated_ps : Text → Text × List Text
windows_prepare_data_dir_elevated_ps data_dir =
    let dir = quote_ps_arg data_dir in
    elevated_ps (
      format (
        codes "New-Item -ItemType Directory -Force -Path "
        ∷ dir
        ∷ codes " | Out-Null; icacls "
        ∷ dir
        ∷ codes " /grant '*S-1-5-11:(OI)(CI)M' /T /C | Out-Null"
        ∷ []))

-- The quote as the shell reads it between two parts of a word: '"'"'.
abbrev pub quoted_quote : Text
quoted_quote = quote ∷ double_quote ∷ quote ∷ double_quote ∷ quote ∷ []

unfoldable pub sh_single_quote : Text → Text
sh_single_quote s = format ((quote ∷ []) ∷ replace quote quoted_quote s ∷ (quote ∷ []) ∷ [])

-- A character before the text that is left of the rest: none if that is white space to the end.
abbrev trimmed_before : ℕ → Text → Text
trimmed_before c [] = if is_whitespace c then [] else c ∷ []
trimmed_before c (d ∷ s) = c ∷ d ∷ s

abbrev pub trim_end : Text → Text
trim_end [] = []
trim_end (c ∷ s) = trimmed_before c (trim_end s)

unfoldable pub macos_prepare_data_dir_script : Text → Text
macos_prepare_data_dir_script data_dir = format (
    codes "DATA_DIR="
    ∷ sh_single_quote data_dir
    ∷ codes "\n"
    ∷ codes "mkdir -p \"$DATA_DIR/logs\"\n"
    ∷ codes "chown -R root:staff \"$DATA_DIR\"\n"
    ∷ codes "chmod 775 \"$DATA_DIR\" \"$DATA_DIR/logs\"\n"
    ∷ codes "chmod -R g+rwX \"$DATA_DIR\"\n"
    ∷ [])

unfoldable pub macos_install_script : Text → Text → Text → Text
macos_install_script plist_path plist_content data_dir = format (
    codes "set -e\n"
    ∷ trim_end (macos_prepare_data_dir_script data_dir)
    ∷ codes "\n"
    ∷ codes "PLIST_PATH="
    ∷ sh_single_quote plist_path
    ∷ codes "\n"
    ∷ codes "mkdir -p /Library/LaunchDaemons\n"
    ∷ codes "cat > \"$PLIST_PATH\" <<'EASYJOB_PLIST_EOF'\n"
    ∷ trim_end plist_content
    ∷ codes "\n"
    ∷ codes "EASYJOB_PLIST_EOF\n"
    ∷ codes "chown root:wheel \"$PLIST_PATH\"\n"
    ∷ codes "chmod 644 \"$PLIST_PATH\"\n"
    ∷ codes "/bin/launchctl bootout system \"$PLIST_PATH\" 2>/dev/null || true\n"
    ∷ codes "/bin/launchctl bootstrap system \"$PLIST_PATH\"\n"
    ∷ [])

unfoldable pub macos_uninstall_script : Text → Text
macos_uninstall_script plist_path = format (
    codes "set -e\n"
    ∷ codes "PLIST_PATH="
    ∷ sh_single_quote plist_path
    ∷ codes "\n"
    ∷ codes "/bin/launchctl bootout system \"$PLIST_PATH\" 2>/dev/null || true\n"
    ∷ codes "rm -f \"$PLIST_PATH\"\n"
    ∷ [])

-- `Path::join` of a relative part.
abbrev join : Text → Text → Text
join [] part = part
join (c ∷ []) part = if c == b'/' then c ∷ part else c ∷ b'/' ∷ part
join (c ∷ d ∷ path) part = c ∷ join (d ∷ path) part

unfoldable pub macos_daemon_plist_for_label : Text → Text → Text → Text
macos_daemon_plist_for_label label agent_exe data_dir =
    let logs = join data_dir (codes "logs") in
    format (
      codes "<?xml version=\"1.0\" encoding=\"UTF-8\"?>\n"
      ∷ codes "<!DOCTYPE plist PUBLIC \"-//Apple//DTD PLIST 1.0//EN\" "
      ∷ codes "\"http://www.apple.com/DTDs/PropertyList-1.0.dtd\">\n"
      ∷ codes "<plist version=\"1.0\">\n"
      ∷ codes "<dict>\n"
      ∷ codes "    <key>Label</key>\n"
      ∷ codes "    <string>"
      ∷ label
      ∷ codes "</string>\n"
      ∷ codes "    <key>ProgramArguments</key>\n"
      ∷ codes "    <array>\n"
      ∷ codes "        <string>"
      ∷ agent_exe
      ∷ codes "</string>\n"
      ∷ codes "        <string>--daemon</string>\n"
      ∷ codes "        <string>--data-dir</string>\n"
      ∷ codes "        <string>"
      ∷ data_dir
      ∷ codes "</string>\n"
      ∷ codes "    </array>\n"
      ∷ codes "    <key>RunAtLoad</key>\n"
      ∷ codes "    <true/>\n"
      ∷ codes "    <key>KeepAlive</key>\n"
      ∷ codes "    <true/>\n"
      ∷ codes "    <key>Umask</key>\n"
      ∷ codes "    <integer>2</integer>\n"
      ∷ codes "    <key>StandardOutPath</key>\n"
      ∷ codes "    <string>"
      ∷ join logs (codes "daemon.out.log")
      ∷ codes "</string>\n"
      ∷ codes "    <key>StandardErrorPath</key>\n"
      ∷ codes "    <string>"
      ∷ join logs (codes "daemon.err.log")
      ∷ codes "</string>\n"
      ∷ codes "</dict>\n"
      ∷ codes "</plist>\n"
      ∷ [])

unfoldable pub macos_daemon_plist : Text → Text → Text
macos_daemon_plist = macos_daemon_plist_for_label (codes "com.easyjob.agent")
