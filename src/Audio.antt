-- ===== src/Audio.antt =====
-- internal/audio/buffer.go: the audio value that the voice boundaries share. Samples are of any type.
-- `Clone` copies, which a model without shared memory need not do.
pub mod Preroll
pub mod Capture
pub mod Single
pub mod Rearm
use xarlatan.Common.{ℕ, Bool, true, false, Option, none, some, List, ◌==◌, if◌then◌else◌, not}
use xarlatan.Common.Text.{is_empty}

pub record Buffer (S : Type 0) : Type 0 where
  pub samples : List S
  pub sample_rate : ℕ
  pub channels : ℕ

pub data FormatError : Type 0 where
  bad_sample_rate not_mono : FormatError

-- `Empty`
unfoldable pub empty : {S : Type 0} → Buffer S → Bool
empty b = is_empty b.samples

-- `Validate`; `none` is a nil error. A negative sample rate is not represented.
unfoldable pub validate : {S : Type 0} → Buffer S → Option FormatError
validate b =
    if b.sample_rate == 0
    then some bad_sample_rate
    else if not (b.channels == 1)
    then some not_mono
    else none
