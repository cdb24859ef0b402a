-- ===== src/Boot/Tests.antt =====
-- Witnesses of the properties of the boot and the log.
use toutatis.Common.{◌+◌, ◌-◌, ◌/◌, ◌≡◌, arith, ◌&&◌, [], ◌∷◌, get_or, ltb, leb, if◌then◌else◌}
use toutatis.Frames.{Frames}
use toutatis.Frames.Marks.{mark}
use toutatis.Boot.{reserve_region}
use toutatis.Boot.Reserved.{reserve_region-mark}
use toutatis.Boot.Log.{Devices}

abbrev free_frames : Frames
free_frames = record { words = λ i. 0; nframes = 4096; used = 0 }

-- The region from 0x9fc00 on, of 0x800 bytes, lies in the frames 159 and 160.
reserve_region-mark_example : mark (reserve_region free_frames 654336 2048) 160 ≡ (
    if leb (654336 / 4096) 160 && ltb 160 (654336 / 4096 + (2048 + 4095) / 4096)
    then 1
    else mark free_frames 160)
reserve_region-mark_example = reserve_region-mark free_frames 654336 2048 160 (omega arith)

-- `ok` at 100.
abbrev ready : Devices
ready = record {
  line = [];
  screen = record {
    memory = λ x. if leb 100 x then get_or (b'o' ∷ b'k' ∷ []) (x - 100) 0 else 0;
    xpos = 0;
    ypos = 24;
    attribute = 3840;
    cursor_high = 0;
    cursor_low = 0;
  };
}
