-- ===== src/Devices/Opening/Opened.antt =====
-- What an open pipeline is.
use Prim.Native.String.{String}
use mathlib.Core.List.{Memᴰ}
use voicemcu.Base.{
  ◌≡◌, refl, sym, ap, ◌∙◌, subst, inl, inr, true, Option, none, some, List, [], ◌∷◌, ok, bind_ok,
  ok-injective, arith, Bool-cases,
}
use voicemcu.Base.Assoc.{String_eq}
use voicemcu.Devices.Opening.{
  StreamFormat, Host, DeviceInfo, AudioPipeline, is_named, find_device, find_input_device,
  find_output_device, or_error, choose_input, choose_output, played, device_info, name_or,
  play_streams, build_streams, open_devices, new,
}

played_ok : (o : Option String) (u : Unit {0}) → played o ≡ ok u → o ≡ none
played_ok none u h = refl
played_ok (some message) u h = absurd cc

module _ (host : Host) where
  open host use {Device, Stream, name}

  -- The device that was asked for by name is one of the devices, of that name; else it is the default.
  abbrev pub IsChosen : Option (List Device) → Option Device → Option String → Device → Type 0
  IsChosen devices default none d = default ≡ some d
  IsChosen none default (some wanted) d = ⊥
  IsChosen (some devices) default (some wanted) d = Memᴰ d devices × (name d ≡ some wanted)

  is_named_lem :
      (wanted : String) (n : Option String) → is_named host wanted n ≡ true → n ≡ some wanted
  unfolding is_named
  is_named_lem wanted none h = cc
  is_named_lem wanted (some n) h = ap some ((String_eq.beq_iff n wanted).0 h)

  find_device_lem :
      (devices : List Device) (wanted : String) (d : Device)
      → find_device host (some devices) wanted ≡ some d
      → Memᴰ d devices × (name d ≡ some wanted)
  unfolding find_device
  find_device_lem [] wanted d h = absurd cc
  find_device_lem (e ∷ devices) wanted d h = elim (Bool-cases (is_named host wanted (name e))) [
    | inl same ↦
        let here : e ≡ d = ground (arith, h, same) in
        (Memᴰ.head (sym here), ap name (sym here) ∙ is_named_lem wanted (name e) same)
    | inr other ↦
        let (member, named) = find_device_lem devices wanted d (ground (arith, h, other)) in
        (Memᴰ.tail member, named)
  ]

  or_error_ok :
      (message : String) (found : Option Device) (d : Device)
      → or_error host message found ≡ ok d
      → found ≡ some d
  or_error_ok message none d h = absurd cc
  or_error_ok message (some e) d h = cc

  find-IsChosen :
      (devices : Option (List Device)) (default : Option Device) (wanted : String) (d : Device)
      → find_device host devices wanted ≡ some d
      → IsChosen devices default (some wanted) d
  unfolding find_device
  find-IsChosen none default wanted d h = absurd cc
  find-IsChosen (some devices) default wanted d h = find_device_lem devices wanted d h

  choose_input-IsChosen :
      (wanted : Option String) (d : Device)
      → choose_input host wanted ≡ ok d
      → IsChosen host.input_devices host.default_input_device wanted d
  unfolding choose_input find_input_device
  choose_input-IsChosen none d h = or_error_ok _ _ d h
  choose_input-IsChosen (some wanted) d h =
      find-IsChosen host.input_devices host.default_input_device wanted d (or_error_ok _ _ d h)

  choose_output-IsChosen :
      (wanted : Option String) (d : Device)
      → choose_output host wanted ≡ ok d
      → IsChosen host.output_devices host.default_output_device wanted d
  unfolding choose_output find_output_device
  choose_output-IsChosen none d h = or_error_ok _ _ d h
  choose_output-IsChosen (some wanted) d h =
      find-IsChosen host.output_devices host.default_output_device wanted d (or_error_ok _ _ d h)

  -- The name that is told of a device: its own, or an empty text if it cannot be read.
  abbrev pub IsNameOf : Option String → String → Type 0
  IsNameOf none told = told ≡ ""
  IsNameOf (some n) told = told ≡ n

  name_or-IsNameOf : (n : Option String) → IsNameOf n (name_or "" n)
  name_or-IsNameOf none = refl
  name_or-IsNameOf (some n) = refl

  -- Two devices, with a stream of each that plays, and what is told of them.
  pub record Playing (input output : Device) (p : AudioPipeline host) (info : DeviceInfo)
      : Type 0 where
    pub input_format : StreamFormat
    pub output_format : StreamFormat
    pub input_formatted : host.default_input_config input ≡ ok input_format
    pub output_formatted : host.default_output_config output ≡ ok output_format
    pub input_built : host.build_input_stream input input_format ≡ ok p.input_stream
    pub output_built : host.build_output_stream output output_format ≡ ok p.output_stream
    pub input_plays : host.play p.input_stream ≡ none
    pub output_plays : host.play p.output_stream ≡ none
    pub input_name : IsNameOf (host.name input) info.input_name
    pub input_rate : info.input_rate ≡ input_format.sample_rate
    pub input_channels : info.input_channels ≡ input_format.channels
    pub output_name : IsNameOf (host.name output) info.output_name
    pub output_rate : info.output_rate ≡ output_format.sample_rate
    pub output_channels : info.output_channels ≡ output_format.channels

  play_streams_lem :
      (input_stream output_stream : Stream) (told info : DeviceInfo) (p : AudioPipeline host)
      → play_streams host input_stream output_stream told ≡ ok (p, info)
      → (input_stream ≡ p.input_stream)
        × (output_stream ≡ p.output_stream)
        × (host.play input_stream ≡ none)
        × (host.play output_stream ≡ none)
        × (info ≡ told)
  unfolding play_streams
  play_streams_lem input_stream output_stream told info p h =
      let (u, plays, h1) = bind_ok (played (host.play input_stream)) _ (p, info) h in
      let (u', plays', h2) = bind_ok (played (host.play output_stream)) _ (p, info) h1 in
      let same = ok-injective _ (p, info) h2 in
      (
        ap (λ (x : AudioPipeline host × DeviceInfo). x.0.input_stream) same,
        ap (λ (x : AudioPipeline host × DeviceInfo). x.0.output_stream) same,
        played_ok _ u plays,
        played_ok _ u' plays',
        ap (λ (x : AudioPipeline host × DeviceInfo). x.1) (sym same),
      )

  build_streams_lem :
      (input output : Device) (input_format output_format : StreamFormat) (info : DeviceInfo)
      (p : AudioPipeline host)
      → build_streams host input output input_format output_format ≡ ok (p, info)
      → (host.build_input_stream input input_format ≡ ok p.input_stream)
        × (host.build_output_stream output output_format ≡ ok p.output_stream)
        × (host.play p.input_stream ≡ none)
        × (host.play p.output_stream ≡ none)
        × (info ≡ device_info host input output input_format output_format)
  unfolding build_streams
  build_streams_lem input output input_format output_format info p h =
      let (input_stream, built, h1) =
        bind_ok (host.build_input_stream input input_format) _ (p, info) h in
      let (output_stream, built', h2) =
        bind_ok (host.build_output_stream output output_format) _ (p, info) h1 in
      let (same, same', plays, plays', told) =
        play_streams_lem input_stream output_stream
          (device_info host input output input_format output_format) info p h2 in
      (
        built ∙ ap ok same,
        built' ∙ ap ok same',
        ap host.play (sym same) ∙ plays,
        ap host.play (sym same') ∙ plays',
        told,
      )

  open_devices-Playing :
      (input output : Device) (info : DeviceInfo) (p : AudioPipeline host)
      → open_devices host input output ≡ ok (p, info)
      → Playing input output p info
  unfolding open_devices device_info
  open_devices-Playing input output info p h =
      let (input_format, formatted, h1) = bind_ok (host.default_input_config input) _ (p, info) h in
      let (output_format, formatted', h2) =
        bind_ok (host.default_output_config output) _ (p, info) h1 in
      let (built, built', plays, plays', told) =
        build_streams_lem input output input_format output_format info p h2 in
      record {
        input_format = input_format;
        output_format = output_format;
        input_formatted = formatted;
        output_formatted = formatted';
        input_built = built;
        output_built = built';
        input_plays = plays;
        output_plays = plays';
        input_name =
            subst (IsNameOf (name input)) (ap (λ (i : DeviceInfo). i.input_name) (sym told))
              (name_or-IsNameOf (name input));
        input_rate = ap (λ (i : DeviceInfo). i.input_rate) told;
        input_channels = ap (λ (i : DeviceInfo). i.input_channels) told;
        output_name =
            subst (IsNameOf (name output)) (ap (λ (i : DeviceInfo). i.output_name) (sym told))
              (name_or-IsNameOf (name output));
        output_rate = ap (λ (i : DeviceInfo). i.output_rate) told;
        output_channels = ap (λ (i : DeviceInfo). i.output_channels) told;
      }

  -- A pipeline that was opened has the devices that were asked for: by name, one that the machine
  -- lists under it, or else the default one. Its streams are made for the formats that these devices
  -- prefer, both play, and what is told of each is its own: the name, or an empty text if it has none
  -- that can be read, and the rate and the channels of its format.
  pub new-Playing :
      (wanted_input wanted_output : Option String) (p : AudioPipeline host) (info : DeviceInfo)
      → new host wanted_input wanted_output ≡ ok (p, info)
      → (input : Device) × (output : Device) × IsChosen host.input_devices host.default_input_device
          wanted_input input
        × IsChosen host.output_devices host.default_output_device wanted_output output
        × Playing input output p info
  unfolding new
  new-Playing wanted_input wanted_output p info h =
      let (input, chosen, h1) = bind_ok (choose_input host wanted_input) _ (p, info) h in
      let (output, chosen', h2) = bind_ok (choose_output host wanted_output) _ (p, info) h1 in
      (
        input,
        output,
        choose_input-IsChosen wanted_input input chosen,
        choose_output-IsChosen wanted_output output chosen',
        open_devices-Playing input output info p h2,
      )
