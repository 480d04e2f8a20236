-- ===== src/Devices/Opening.antt =====
-- client/src/audio_io.rs: which devices are opened, and the listing of devices. What the machine has
-- (cpal) is a parameter; a device answers the same each time that it is asked. The callbacks of the
-- streams are `capture` and `playback`, with the resamplers for the rates that are found here.
pub mod Opened
mod Examples
use Prim.Native.String.{String}
use voicemcu.Base.{
  ℕ, Bool, true, false, Option, none, some, List, [], ◌∷◌, ◌++◌, Result, ok, err, ◌>>=◌, ◌>>◌,
  if◌then◌else◌,
}
use voicemcu.Base.Assoc.{String_eq}
use voicemcu.Tui.Text.{append, show_id}

pub record StreamFormat : Type 0 where
  pub sample_rate : ℕ
  pub channels : ℕ

-- `none` and `err` are the errors of the library; `play` gives one if it fails.
pub record Host : Type 1 where
  pub Device : Type 0
  pub Stream : Type 0
  pub input_devices : Option (List Device)
  pub output_devices : Option (List Device)
  pub default_input_device : Option Device
  pub default_output_device : Option Device
  pub name : Device → Option String
  pub default_input_config : Device → Result String StreamFormat
  pub default_output_config : Device → Result String StreamFormat
  pub build_input_stream : Device → StreamFormat → Result String Stream
  pub build_output_stream : Device → StreamFormat → Result String Stream
  pub play : Stream → Option String

pub record DeviceInfo : Type 0 where
  pub input_name : String
  pub input_rate : ℕ
  pub input_channels : ℕ
  pub output_name : String
  pub output_rate : ℕ
  pub output_channels : ℕ

-- `unwrap_or` of a name.
abbrev pub name_or : String → Option String → String
name_or default none = default
name_or default (some name) = name

-- `({} Hz, {} ch)`
pub format_text : StreamFormat → String
format_text format =
    append "(" (
      append (show_id format.sample_rate)
        (append " Hz, " (append (show_id format.channels) " ch)")))

abbrev pub played : Option String → Result String (Unit {0})
played none = ok tt
played (some message) = err message

module _ (host : Host) where
  open host use {
    Device, Stream, input_devices, output_devices, default_input_device, default_output_device,
    name, default_input_config, default_output_config, build_input_stream, build_output_stream,
    play,
  }

  pub record AudioPipeline : Type 0 where
    pub input_stream : Stream
    pub output_stream : Stream

  pub is_named : String → Option String → Bool
  is_named wanted none = false
  is_named wanted (some n) = String_eq.beq n wanted

  pub find_device : Option (List Device) → String → Option Device
  find_device none wanted = none
  find_device (some []) wanted = none
  find_device (some (d ∷ devices)) wanted =
      let rest = find_device (some devices) wanted in
      if is_named wanted (name d) then some d else rest

  pub find_input_device : String → Option Device
  find_input_device wanted = find_device input_devices wanted

  pub find_output_device : String → Option Device
  find_output_device wanted = find_device output_devices wanted

  abbrev pub or_error : String → Option Device → Result String Device
  or_error message none = err message
  or_error message (some d) = ok d

  unfoldable pub choose_input : Option String → Result String Device
  choose_input none = or_error "no default input audio device" default_input_device
  choose_input (some wanted) =
      or_error (append "input device not found: " wanted) (find_input_device wanted)

  unfoldable pub choose_output : Option String → Result String Device
  choose_output none = or_error "no default output audio device" default_output_device
  choose_output (some wanted) =
      or_error (append "output device not found: " wanted) (find_output_device wanted)

  pub device_info : Device → Device → StreamFormat → StreamFormat → DeviceInfo
  device_info input_device output_device in_supported out_supported = record {
    input_name = name_or "" (name input_device);
    input_rate = in_supported.sample_rate;
    input_channels = in_supported.channels;
    output_name = name_or "" (name output_device);
    output_rate = out_supported.sample_rate;
    output_channels = out_supported.channels;
  }

  pub play_streams : Stream → Stream → DeviceInfo → Result String (AudioPipeline × DeviceInfo)
  play_streams input_stream output_stream info = do
    played (play input_stream)
    played (play output_stream)
    ok (record { input_stream = input_stream; output_stream = output_stream }, info)

  pub build_streams :
      Device → Device → StreamFormat → StreamFormat → Result String (AudioPipeline × DeviceInfo)
  build_streams input_device output_device in_supported out_supported = do
    input_stream ← build_input_stream input_device in_supported
    output_stream ← build_output_stream output_device out_supported
    play_streams input_stream output_stream
        (device_info input_device output_device in_supported out_supported)

  pub open_devices : Device → Device → Result String (AudioPipeline × DeviceInfo)
  open_devices input_device output_device = do
    in_supported ← default_input_config input_device
    out_supported ← default_output_config output_device
    build_streams input_device output_device in_supported out_supported

  -- `AudioPipeline::new`.
  unfoldable pub new : Option String → Option String → Result String (AudioPipeline × DeviceInfo)
  new input_device_name output_device_name = do
    input_device ← choose_input input_device_name
    output_device ← choose_output output_device_name
    open_devices input_device output_device

  pub device_line : (Device → Result String StreamFormat) → Device → String
  device_line config d = append "  " (
      append (name_or "<unknown>" (name d)) (elim (config d) [
        | err message ↦ " (config unavailable)"
        | ok format ↦ append " " (format_text format)
      ]))

  pub device_lines : (Device → Result String StreamFormat) → Option (List Device) → List String
  device_lines config none = []
  device_lines config (some []) = []
  device_lines config (some (d ∷ devices)) =
      device_line config d ∷ device_lines config (some devices)

  pub default_line : String → Option Device → List String
  default_line label none = []
  default_line label (some d) = append label (name_or "" (name d)) ∷ []

  -- What is printed; a line break in front of a line is a part of it.
  pub list_devices : List String
  list_devices =
      "Input devices:"
      ∷ (device_lines default_input_config input_devices
          ++ ("\nOutput devices:"
              ∷ (device_lines default_output_config output_devices
                  ++ (default_line "\nDefault input:  " default_input_device
                      ++ default_line "Default output: " default_output_device))))
