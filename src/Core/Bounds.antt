-- ===== src/Core/Bounds.antt =====
-- core.c: the array of channels and the numbers that index it.
use native.Mathlib.Decide.{dec_le}
use fb_adb.Prelude.{
  ℕ, zero, suc, ◌≤◌, ◌<◌, ◌≡◌, ◌≢◌, ◌↔◌, ◌⊎◌, inl, inr, refl, ap, arith, List, [], ◌∷◌, Bytes,
}
use fb_adb.Outcome.{ok, fault}
use fb_adb.Util.{satadd}
use fb_adb.Channel.{Channel, Writes}
use fb_adb.Proto.{MsgChannelData, MsgChannelDataLz4, MsgChannelWindow, MsgChannelClose}
use fb_adb.Core.{FbAdbSh, from_peer, channel_at, with_channel}
use fb_adb.Core.Receive.{
  Lz4Result, invalid_channel, process_msg_channel_data, process_msg_channel_data_lz4,
  process_msg_channel_window, process_msg_channel_close,
}

unfoldable pub nr_channels : List Channel → ℕ
nr_channels [] = 0
nr_channels (c ∷ cs) = suc (nr_channels cs)

pub channel_at-inside :
    (cs : List Channel) (i : ℕ) → i < nr_channels cs → (c : Channel) × (channel_at cs i ≡ ok c)
unfolding nr_channels channel_at
channel_at-inside [] i h = absurd (omega arith)
channel_at-inside (c ∷ cs) zero h = (c, refl)
channel_at-inside (c ∷ cs) (suc i) h = channel_at-inside cs i (omega arith)

pub channel_at-outside : (cs : List Channel) (i : ℕ) → nr_channels cs ≤ i → channel_at cs i ≡ fault
unfolding nr_channels channel_at
channel_at-outside [] i h = refl
channel_at-outside (c ∷ cs) zero h = absurd (omega arith)
channel_at-outside (c ∷ cs) (suc i) h = channel_at-outside cs i (omega arith)

pub channel_at-with_self :
    (cs : List Channel) (i : ℕ) (c d : Channel)
    → channel_at cs i ≡ ok c
    → channel_at (with_channel cs i d) i ≡ ok d
unfolding channel_at with_channel
channel_at-with_self [] i c d h = absurd (ground arith)
channel_at-with_self (c' ∷ cs) zero c d h = refl
channel_at-with_self (c' ∷ cs) (suc i) c d h = channel_at-with_self cs i c d h

pub channel_at-with_other :
    (cs : List Channel) (i j : ℕ) (d : Channel)
    → i ≢ j
    → channel_at (with_channel cs i d) j ≡ channel_at cs j
unfolding channel_at with_channel
channel_at-with_other [] i j d h = refl
channel_at-with_other (c ∷ cs) zero zero d h = absurd (h refl)
channel_at-with_other (c ∷ cs) zero (suc j) d h = refl
channel_at-with_other (c ∷ cs) (suc i) zero d h = refl
channel_at-with_other (c ∷ cs) (suc i) (suc j) d h =
    channel_at-with_other cs i j d (λ e. h (ap suc e))

-- Whether there is a channel of that number.
channel_cases :
    (cs : List Channel) (i : ℕ)
    → ((c : Channel) × (channel_at cs i ≡ ok c) × (i < nr_channels cs))
      ⊎ ((channel_at cs i ≡ fault) × (nr_channels cs ≤ i))
channel_cases cs i = elim (dec_le (nr_channels cs) i) [
  | yes out ↦ inr (channel_at-outside cs i out, out)
  | no inside ↦
      let below : i < nr_channels cs = omega arith in
      let (c, e) = channel_at-inside cs i below in inl (c, e, below)
]

-- The guard of the handlers lets exactly one number through that is none of a channel.
module _ (sh : FbAdbSh) (whole : nr_channels sh.ch ≡ sh.nrch) (enough : 2 ≤ sh.nrch) where
  window_faults_iff :
      (m : MsgChannelWindow) → (process_msg_channel_window sh m ≡ fault) ↔ (m.channel ≡ sh.nrch)
  unfolding process_msg_channel_window invalid_channel satadd
  window_faults_iff m = elim (channel_cases sh.ch m.channel) [
    | inl (c, e, below) ↦ (ground (arith, e), ground (arith, e))
    | inr (e, out) ↦ (ground (arith, e), ground (arith, e))
  ]

  close_faults_iff :
      (m : MsgChannelClose) → (process_msg_channel_close sh m ≡ fault) ↔ (m.channel ≡ sh.nrch)
  unfolding process_msg_channel_close invalid_channel
  close_faults_iff m = elim (channel_cases sh.ch m.channel) [
    | inl (c, e, below) ↦ (ground (arith, e), ground (arith, e))
    | inr (e, out) ↦ (ground (arith, e), ground (arith, e))
  ]

  data_faults :
      (writes : Writes) (m : MsgChannelData)
      → m.channel ≡ sh.nrch
      → process_msg_channel_data writes sh m ≡ fault
  unfolding process_msg_channel_data invalid_channel
  data_faults writes m h =
      let (cmdch, e) = channel_at-inside sh.ch from_peer (omega arith) in
      ground (arith, e, channel_at-outside sh.ch m.channel (omega arith))

  data_lz4_faults :
      (lz4_decompress_safe : Bytes → ℕ → Lz4Result) (writes : Writes) (m : MsgChannelDataLz4)
      → m.channel ≡ sh.nrch
      → process_msg_channel_data_lz4 lz4_decompress_safe writes sh m ≡ fault
  unfolding process_msg_channel_data_lz4 invalid_channel
  data_lz4_faults lz4_decompress_safe writes m h =
      let (cmdch, e) = channel_at-inside sh.ch from_peer (omega arith) in
      ground (arith, e, channel_at-outside sh.ch m.channel (omega arith))

  -- With `nrch` channels, at least the two of the peer, a credit or close message makes its handler
  -- index the array outside exactly when it names channel number `nrch`, and a data message, plain
  -- or compressed, does so when it names that number.
  pub handlers_fault_iff :
      (lz4_decompress_safe : Bytes → ℕ → Lz4Result) (writes : Writes) (window : MsgChannelWindow)
      (close : MsgChannelClose) (plain : MsgChannelData) (lz4 : MsgChannelDataLz4)
      → ((process_msg_channel_window sh window ≡ fault) ↔ (window.channel ≡ sh.nrch))
        × ((process_msg_channel_close sh close ≡ fault) ↔ (close.channel ≡ sh.nrch))
        × (plain.channel ≡ sh.nrch → process_msg_channel_data writes sh plain ≡ fault)
        × (lz4.channel ≡ sh.nrch
            → process_msg_channel_data_lz4 lz4_decompress_safe writes sh lz4 ≡ fault)
  handlers_fault_iff lz4_decompress_safe writes window close plain lz4 = (
    window_faults_iff window,
    close_faults_iff close,
    data_faults writes plain,
    data_lz4_faults lz4_decompress_safe writes lz4,
  )
