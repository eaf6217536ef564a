-- ===== src/Platform/Startup/Examples.antt =====
-- Tests of the scripts and of the quoting, and the theorems at concrete paths.
use easy_job.Prelude.{◌≡◌, refl, some, [], ◌∷◌, ◌++◌}
use easy_job.Scheduler.Evaluator.Cron.{codes}
use easy_job.Platform.Startup.{
  Text, quote, windows_service_image_path, quote_ps_arg, elevated_ps, windows_uninstall_elevated_ps,
  sh_single_quote, macos_uninstall_script,
}
use easy_job.Platform.Startup.Quoting.{
  plain, sh_word, ps_arg, ps_string, sh_word-sh_single_quote, ps_arg-quote_ps_arg,
}

abbrev brien : Text
brien = codes "/Users/o'brien"

image_path_test :
    windows_service_image_path (codes "C:/a b.exe") (codes "C:/data")
    ≡ codes "\"C:/a b.exe\" --service --data-dir \"C:/data\""
unfolding windows_service_image_path
image_path_test = refl

uninstall_test :
    (windows_uninstall_elevated_ps (codes "a.exe")).1
    ≡ codes "-NoProfile"
      ∷ codes "-NonInteractive"
      ∷ codes "-Command"
      ∷ (codes "Start-Process powershell.exe -ArgumentList '-NoProfile -NonInteractive -Command "
          ++ codes "& ''a.exe'' --uninstall-service' -Verb RunAs -Wait")
      ∷ []
unfolding windows_uninstall_elevated_ps elevated_ps quote_ps_arg
uninstall_test = refl

uninstall_script_test :
    macos_uninstall_script (codes "/p.plist")
    ≡ codes "set -e\nPLIST_PATH='/p.plist'\n"
      ++ codes "/bin/launchctl bootout system \"$PLIST_PATH\" 2>/dev/null || true\n"
      ++ codes "rm -f \"$PLIST_PATH\"\n"
unfolding macos_uninstall_script sh_single_quote
uninstall_script_test = refl

-- PowerShell ends the text at a typographic quote: what follows is read as code.
typographic_quote_ends :
    ps_arg (quote_ps_arg (65 ∷ 0x2019 ∷ 59 ∷ [])) ≡ some (65 ∷ [], 59 ∷ quote ∷ [])
unfolding ps_arg quote_ps_arg ps_string
typographic_quote_ends = refl

sh_word-sh_single_quote_example :
    sh_word plain (sh_single_quote brien ++ codes "\nmkdir") ≡ some (brien, codes "\nmkdir")
sh_word-sh_single_quote_example = sh_word-sh_single_quote brien b'\n' (codes "mkdir") refl

ps_arg-quote_ps_arg_example :
    ps_arg (quote_ps_arg (codes "o'b") ++ codes " -Verb") ≡ some (codes "o'b", codes " -Verb")
ps_arg-quote_ps_arg_example =
    ps_arg-quote_ps_arg (codes "o'b") (codes " -Verb") (refl, (refl, (refl, tt))) refl
