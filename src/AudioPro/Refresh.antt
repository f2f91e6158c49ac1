-- ===== src/AudioPro/Refresh.antt =====
-- pihub/audiopro_speaker.py: what request_refresh says it has sent, and what it says where nothing went out.
use Prim.Native.String
use mathlib.Core.List.{append_assoc, append-nil}
use pihub_remote_nrf.Prelude.{
  String, ◌≡◌, refl, sym, ap, ◌∙◌, Bool, true, false, Option, ◌&&◌, ◌||◌, List, [], ◌∷◌, ◌++◌,
  if_cases, if◌then◌else◌,
}
use pihub_remote_nrf.AudioPro.State.{Speaker}
use pihub_remote_nrf.AudioPro.Commands.{
  Sending, goes, unconnected, fails, with_amp, send, mark_down, disconnect,
}
use pihub_remote_nrf.AudioPro.Multiroom.{World, refresh_multiroom_guest_host_ip, set_host_ip}
use pihub_remote_nrf.AudioPro.Leaving.{alike, resolve-Alike}
use pihub_remote_nrf.AudioPro.Link.{
  Refresh, refresh_question, refresh_questions, request_refresh, failure, noted, looks_up,
  refused_refresh, look_up_host, refresh_answer,
}

-- A payload, where the flag says so.
abbrev pub said : Bool → String → List String
said b payload = if b then payload ∷ [] else []

-- A send that failed when its packet was already written.
abbrev pub was_written : Sending → Bool
was_written (fails written e) = written
was_written _ = false

question-sent :
    (repr : String → String) (name : String) (how : Sending) (payload : String) (s : Speaker)
    (errors : List String)
    → (refresh_question repr name how payload (s, errors)).0.0.sent
      ≡ s.sent
        ++ said
            ((refresh_question repr name how payload (s, errors)).1 || was_written how)
            (with_amp payload)
unfolding refresh_question send mark_down disconnect
question-sent repr name goes payload s errors = refl
question-sent repr name unconnected payload s errors = sym (append-nil s.sent)
question-sent repr name (fails true e) payload s errors = refl
question-sent repr name (fails false e) payload s errors = sym (append-nil s.sent)

noted-sent : (b : Bool) (s : Speaker) → (noted b s).sent ≡ s.sent
noted-sent b s = if_cases (λ (x : Speaker). x.sent ≡ s.sent) b refl refl

look_up-sent : (w : World) (s : Speaker) → (look_up_host w s).sent ≡ s.sent
unfolding look_up_host refresh_multiroom_guest_host_ip set_host_ip
look_up-sent w s =
    if_cases (λ (x : Speaker). x.sent ≡ s.sent) (looks_up s)
      (if_cases (λ (x : Speaker × Option String). x.0.sent ≡ s.sent) s.state.multiroom_guest_active
        (resolve-Alike w s.known_speaker_ips s s (alike s)).sent refl)
      refl

-- The questions on the line: those said to be sent, and, where they were asked at all, those whose send failed when
-- their packets were written.
abbrev pub on_line : Bool → Sending → Sending → Sending → Bool → Bool → Bool → List String
on_line asked a b c pinfget slvget pstget =
    said (pinfget || (asked && was_written a)) "MCU+PINFGET"
    ++ (said (slvget || (asked && was_written b)) "MCU+SLV+GET"
        ++ said (pstget || (asked && was_written c)) "MCU+PST+GET")

three_parts :
    {A : Type 0} (s t u v a b c : List A)
    → t ≡ s ++ a
    → u ≡ t ++ b
    → v ≡ u ++ c
    → v ≡ s ++ (a ++ (b ++ c))
three_parts s t u v a b c e f g =
    g
    ∙ ap (λ x. x ++ c) (f ∙ ap (λ x. x ++ b) e)
    ∙ append_assoc (s ++ a) b c
    ∙ append_assoc s a (b ++ c)

questions-sent :
    (repr : String → String) (a b c : Sending) (s : Speaker)
    → (refresh_questions repr a b c s).0.0.sent
      ≡ s.sent
        ++ on_line s.state.connected a b c
            (refresh_questions repr a b c s).1.0
            (refresh_questions repr a b c s).1.1
            (refresh_questions repr a b c s).1.2
unfolding refresh_questions with_amp
questions-sent repr a b c s = by_connected s.state.connected
  where
    one : (Speaker × List String) × Bool
    one = refresh_question repr "pinfget" a "MCU+PINFGET" (s, [])

    two : (Speaker × List String) × Bool
    two = refresh_question repr "slvget" b "MCU+SLV+GET" (noted one.1 one.0.0, one.0.1)

    three : (Speaker × List String) × Bool
    three = refresh_question repr "pstget" c "MCU+PST+GET" two.0

    asked : Bool → (Speaker × List String) × (Bool × Bool × Bool)
    asked k = if k then (three.0, (one.1, two.1, three.1)) else ((s, []), (false, false, false))

    by_connected :
        (k : Bool)
        → (asked k).0.0.sent ≡ s.sent ++ on_line k a b c (asked k).1.0 (asked k).1.1 (asked k).1.2
    by_connected false = sym (append-nil s.sent)
    by_connected true =
        three_parts s.sent one.0.0.sent two.0.0.sent three.0.0.sent
          (said (one.1 || was_written a) "MCU+PINFGET")
          (said (two.1 || was_written b) "MCU+SLV+GET")
          (said (three.1 || was_written c) "MCU+PST+GET")
          (question-sent repr "pinfget" a "MCU+PINFGET" s [])
          (question-sent repr "slvget" b "MCU+SLV+GET" (noted one.1 one.0.0) one.0.1
            ∙ ap (λ x. x ++ said (two.1 || was_written b) "MCU+SLV+GET") (noted-sent one.1 one.0.0))
          (question-sent repr "pstget" c "MCU+PST+GET" two.0.0 two.0.1)

-- What stands after what was sent before, by whether the questions were asked and how their sends went.
abbrev pub IsTold : Bool → Sending → Sending → Sending → List String → Speaker × Refresh → Type 0
IsTold asked a b c before (u, r) =
    u.sent ≡ before ++ on_line asked a b c r.pinfget_sent r.slvget_sent r.pstget_sent

answer-IsTold :
    (asked connected : Bool) (a b c : Sending) (before errors : List String)
    (p q r refreshed : Bool) (u : Speaker)
    → u.sent ≡ before ++ on_line asked a b c p q r
    → IsTold asked a b c before (u, refresh_answer connected errors (p, q, r) refreshed)
unfolding refresh_answer
answer-IsTold asked true a b c before errors true q r refreshed u h = h
answer-IsTold asked true a b c before errors false true r refreshed u h = h
answer-IsTold asked true a b c before errors false false true refreshed u h = h
answer-IsTold asked true a b c before errors false false false refreshed u h = h
answer-IsTold asked false a b c before errors p q r refreshed u h = h

-- Whatever becomes of the questions of a request_refresh, of the link and of the other speakers: what it puts on
-- the line is, in their order, just the questions that its answer says were sent and, where the driver is enabled
-- and the link connected, those whose send failed after their packet was written.
pub request_refresh-IsTold :
    (w : World) (repr : String → String) (a b c : Sending) (s : Speaker)
    → IsTold (s.asking.enabled && s.state.connected) a b c s.sent (request_refresh w repr a b c s)
unfolding request_refresh
request_refresh-IsTold w repr a b c s = by_enabled s.asking.enabled
  where
    asked : (Speaker × List String) × (Bool × Bool × Bool)
    asked = refresh_questions repr a b c s

    u : Speaker
    u = look_up_host w asked.0.0

    by_enabled :
        (k : Bool)
        → IsTold (k && s.state.connected) a b c s.sent (
            if k
            then (u, refresh_answer u.state.connected asked.0.1 asked.1 (looks_up asked.0.0))
            else (s, refused_refresh "unavailable" ("speaker_disabled" ∷ [])))
    by_enabled false = sym (append-nil s.sent)
    by_enabled true =
        answer-IsTold s.state.connected u.state.connected a b c s.sent asked.0.1 asked.1.0 asked.1.1
          asked.1.2 (looks_up asked.0.0) u (look_up-sent w asked.0.0 ∙ questions-sent repr a b c s)

-- Where the driver is enabled, the link connected and the speaker no guest, and the first question's send fails,
-- before or after its packet is written, so that the link is closed and the other questions find no writer: the
-- answer is ok, with nothing said to be sent and three errors.
pub failed_refresh-ok :
    (w : World) (repr : String → String) (written : Bool) (e : String) (s : Speaker)
    → s.asking.enabled ≡ true
    → s.state.connected ≡ true
    → s.state.multiroom_guest_active ≡ false
    → (request_refresh w repr (fails written e) unconnected unconnected s).1 ≡ record {
      ok = true;
      outcome = "refresh_requested";
      errors =
          failure repr "pinfget" (String.◌++◌ "send failed: " e)
          ∷ failure repr "slvget" "not connected"
          ∷ failure repr "pstget" "not connected"
          ∷ [];
      pinfget_sent = false;
      slvget_sent = false;
      pstget_sent = false;
      guest_host_refreshed = false;
    }
unfolding request_refresh refresh_questions refresh_question send mark_down disconnect look_up_host
    refresh_answer
failed_refresh-ok w repr written e s on connected alone = rw (on, connected, alone) refl
