-- ===== src/Devices/Opening/Examples.antt =====
-- A machine with two microphones, and the theorem at it.
use Prim.Native.String.{String}
use voicemcu.Base.{ℕ, ◌≡◌, refl, Option, none, some, [], ◌∷◌, Result, ok, err, ◌==◌, if◌then◌else◌}
use voicemcu.Base.Assoc.{String_eq}
use voicemcu.Tui.Text.{append, show_id, show_digits, nth_digit}
use voicemcu.Devices.Opening.{
  StreamFormat, Host, DeviceInfo, AudioPipeline, is_named, find_device, find_input_device,
  choose_input, choose_output, device_info, play_streams, build_streams, open_devices, new,
  device_line, device_lines, default_line, format_text, list_devices,
}
use voicemcu.Devices.Opening.Opened.{IsChosen, Playing, new-Playing}

-- Device 3 has no name.
abbrev name_of : ℕ → Option String
name_of d = if d == 1 then some "mic" else if d == 2 then some "usb" else none

abbrev format_of : ℕ → Result String StreamFormat
format_of d = if d == 3 then err "busy" else ok (record { sample_rate = 44100; channels = d })

abbrev machine : Host
machine = record {
  Device = ℕ;
  Stream = ℕ;
  input_devices = some (1 ∷ 2 ∷ 3 ∷ []);
  output_devices = none;
  default_input_device = some 1;
  default_output_device = some 2;
  name = name_of;
  default_input_config = format_of;
  default_output_config = format_of;
  build_input_stream = λ (d : ℕ) (format : StreamFormat). ok d;
  build_output_stream = λ (d : ℕ) (format : StreamFormat). ok d;
  play = λ (s : ℕ). none;
}

abbrev pipeline : AudioPipeline machine
pipeline = record { input_stream = 2; output_stream = 2 }

abbrev info : DeviceInfo
info = record {
  input_name = "usb";
  input_rate = 44100;
  input_channels = 2;
  output_name = "usb";
  output_rate = 44100;
  output_channels = 2;
}

opens : new machine (some "usb") none ≡ ok (pipeline, info)
unfolding new choose_input choose_output find_input_device find_device is_named open_devices
    build_streams play_streams device_info
opens = refl

missing : new machine (some "jack") none ≡ err "input device not found: jack"
unfolding new choose_input find_input_device find_device is_named append
missing = refl

listing :
    list_devices machine
    ≡ "Input devices:" ∷ "  mic (44100 Hz, 1 ch)" ∷ "  usb (44100 Hz, 2 ch)"
      ∷ "  <unknown> (config unavailable)" ∷ "\nOutput devices:" ∷ "\nDefault input:  mic"
      ∷ "Default output: usb" ∷ []
unfolding list_devices device_lines device_line default_line format_text append show_id show_digits
    nth_digit
listing = refl

new-Playing_example :
    (input : ℕ) × (output : ℕ) × IsChosen machine
      (some (1 ∷ 2 ∷ 3 ∷ []))
      (some 1)
      (some "usb")
      input
    × IsChosen machine none (some 2) none output
    × Playing machine input output pipeline info
new-Playing_example = new-Playing machine (some "usb") none pipeline info opens
