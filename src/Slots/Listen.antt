-- ===== src/Slots/Listen.antt =====
-- pihub/slots.py: what the listen target resolves to on a speaker that is not the soundbar.
use pihub_remote_nrf.Prelude.{
  ℕ, ◌+◌, ◌-◌, ◌≤◌, String, ◌≡◌, false, none, some, ◌==◌, arith, leb, if◌then◌else◌,
}
use pihub_remote_nrf.Slots.{Settings, SlotTarget, resolve_slot, listen_slot}

abbrev pub stream_target : Settings → ℕ → SlotTarget
stream_target s n = record {
  slot = 6 + n;
  preset = none;
  url = s.get_stream_url n;
  restream = false;
}

six_less : (n : ℕ) → (6 + n) - 6 ≡ n
six_less n = omega arith

-- On any backend but the soundbar, a listen target of a type other than preset and a stream number
-- from 1 on resolves to that stream's URL, without restreaming, for the streams 1 to 4, and to the
-- ValueError of a slot out of range for every other.
pub resolve_slot-listen_slot :
    (s : Settings) (backend : String)
    → (backend == "samsung_soundbar") ≡ false
    → (s.listen_target_type == "preset") ≡ false
    → 1 ≤ s.listen_target_stream
    → resolve_slot s backend (listen_slot s backend) ≡ (
        if leb s.listen_target_stream 4
        then some (stream_target s s.listen_target_stream)
        else none)
unfolding resolve_slot listen_slot
resolve_slot-listen_slot s backend other no_preset low =
    ground (arith, six_less s.listen_target_stream)
