-- ===== src/Smoke/Untyping.antt =====
-- The two emulator scripts that need no login: the client and the candidate.
use capybaragram_build.Device.{World, Trace, M}
use capybaragram_build.Device.Emits.{Extends}
use capybaragram_build.Smoke.{Setup}
use capybaragram_build.Smoke.Silent.{silent}
use capybaragram_build.Smoke.Client
use capybaragram_build.Smoke.Client.Quiet.{run-silent}
use capybaragram_build.Smoke.Candidate
use capybaragram_build.Smoke.Candidate.Untyped.{run-untyped}

pub data Untyping : Type 0 where
  client candidate : Untyping

unfoldable pub run_script : Untyping → World → Setup → M (Unit {0})
run_script client = Client.run
run_script candidate = Candidate.run

-- Whatever the device answers, and however the client or the candidate script ends, it never types text
-- into the device: it enters no phone number, no code and no message.
pub run_script-silent :
    (script : Untyping) (w : World) (s : Setup) (t : Trace)
    → Extends silent t (run_script script w s t).1
unfolding run_script
run_script-silent client w s t = run-silent w s t
run_script-silent candidate w s t = run-untyped w s t
