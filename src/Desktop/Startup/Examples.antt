-- ===== src/Desktop/Startup/Examples.antt =====
-- Tests of the encoder, those of apps/desktop/src-tauri/src/startup.rs among them, and its theorem
-- at a concrete script.
use easy_job.Prelude.{ℕ, ◌≡◌, refl, some, List, arith}
use easy_job.Scheduler.Evaluator.Cron.{codes}
use easy_job.Desktop.Startup.{base64_encode, symbol}
use easy_job.Desktop.Startup.RoundTrip.{decode, decode-base64_encode}

abbrev script : List ℕ
script = codes "foobar!"

encodes_foobar : base64_encode (codes "foobar") ≡ codes "Zm9vYmFy"
unfolding base64_encode symbol
encodes_foobar = refl

encodes_f : base64_encode (codes "f") ≡ codes "Zg=="
unfolding base64_encode symbol
encodes_f = refl

encodes_fo : base64_encode (codes "fo") ≡ codes "Zm8="
unfolding base64_encode symbol
encodes_fo = refl

decode-base64_encode_example : decode (base64_encode script) ≡ some script
decode-base64_encode_example = decode-base64_encode script (
  omega arith,
  (omega arith, (omega arith, (omega arith, (omega arith, (omega arith, (omega arith, tt)))))),
)
