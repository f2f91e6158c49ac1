-- ===== src/AudioPro/Leaving.antt =====
-- pihub/audiopro_speaker.py: how leaving a native multiroom group ends.
use Prim.Native.String
use pihub_remote_nrf.Prelude.{
  String, ◌≡◌, refl, true, false, Option, none, some, List, [], ◌∷◌, ◌++◌, if_cases,
}
use pihub_remote_nrf.Prelude.Result.{Result}
use pihub_remote_nrf.Prelude.Text.{strip}
use pihub_remote_nrf.AudioPro.State.{Speaker}
use pihub_remote_nrf.AudioPro.Multiroom.{
  World, Request, http_cmd_text, get_multiroom_slave_list, hosts_ip, candidates, probe,
  find_multiroom_host_ip, resolve_multiroom_host_ip, set_host_ip,
}

-- The last request, after these, was answered OK.
abbrev pub LastOk : World → List Request → Request → Speaker → Type 0
LastOk w before r t = (t.requests ≡ before ++ r ∷ []) × (w.answer before r ≡ Result.ok "OK")

-- How it ends from s, where the speaker was a guest, hosted guests, or neither.
pub data Left (w : World) (s : Speaker) : Speaker × Result String → Type 0 where
  nothing_to_leave :
      s.state.multiroom_guest_active ≡ false
      → s.state.multiroom_host_active ≡ false
      → Left w s (s, Result.ok "noop")
  guest_left :
      (t : Speaker) (before : List Request) (host : String)
      → s.state.multiroom_guest_active ≡ true
      → LastOk w before (some host, String.◌++◌ "multiroom:SlaveKickout:" s.speaker_ip) t
      → t.state.multiroom_guest_active ≡ false
      → t.state.multiroom_host_ip ≡ none
      → Left w s (t, Result.ok "guest_kicked")
  guests_sent_off :
      (t : Speaker)
      → s.state.multiroom_guest_active ≡ false
      → s.state.multiroom_host_active ≡ true
      → LastOk w s.requests (none, "multiroom:Ungroup") t
      → t.state.multiroom_host_active ≡ false
      → t.state.multiroom_slave_count ≡ 0
      → Left w s (t, Result.ok "host_ungrouped")
  not_left :
      (t : Speaker) (e : String)
      → t.state.multiroom_guest_active ≡ s.state.multiroom_guest_active
      → t.state.multiroom_host_active ≡ s.state.multiroom_host_active
      → Left w s (t, Result.err e)

-- What the requests on the way leave alone.
pub record Alike (s t : Speaker) : Type 0 where
  pub guest : t.state.multiroom_guest_active ≡ s.state.multiroom_guest_active
  pub host : t.state.multiroom_host_active ≡ s.state.multiroom_host_active
  pub ip : t.speaker_ip ≡ s.speaker_ip
  pub sent : t.sent ≡ s.sent

pub alike : (s : Speaker) → Alike s s
alike s = record { guest = refl; host = refl; ip = refl; sent = refl }

slave_list-Alike :
    (w : World) (target : Option String) (s t : Speaker)
    → Alike s t
    → Alike s (get_multiroom_slave_list w target t).0
unfolding get_multiroom_slave_list http_cmd_text
slave_list-Alike w target s t a = record {
  guest = a.guest;
  host = a.host;
  ip = a.ip;
  sent = a.sent;
}

probe-Alike :
    (w : World) (my_ip : String) (cs : List String) (s t : Speaker)
    → Alike s t
    → Alike s (probe w my_ip cs t).0
unfolding probe
probe-Alike w my_ip [] s t a = a
probe-Alike w my_ip (c ∷ cs) s t a =
    if_cases (λ (x : Speaker × Option String). Alike s x.0)
      (hosts_ip w my_ip (get_multiroom_slave_list w (some c) t).1)
      (slave_list-Alike w (some c) s t a)
      (probe-Alike w my_ip cs s (get_multiroom_slave_list w (some c) t).0
        (slave_list-Alike w (some c) s t a))

pub resolve-Alike :
    (w : World) (ips : List String) (s t : Speaker)
    → Alike s t
    → Alike s (resolve_multiroom_host_ip w ips t).0
unfolding resolve_multiroom_host_ip find_multiroom_host_ip set_host_ip
resolve-Alike w ips s t a =
    let b = probe-Alike w (strip t.speaker_ip) (candidates (strip t.speaker_ip) [] ips) s t a in
    record { guest = b.guest; host = b.host; ip = b.ip; sent = b.sent }

abbrev kickout_of : Speaker → String → Request
kickout_of s host = (some host, String.◌++◌ "multiroom:SlaveKickout:" s.speaker_ip)
