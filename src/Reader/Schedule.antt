-- ===== src/Reader/Schedule.antt =====
-- pihub/unifying_reader.py: what holds after every order of the reader's steps.
use Prim.Native.String.{◌++◌ as str_append}
use pihub_remote_nrf.Prelude.{
  ℕ, suc, ◌+◌, ◌≤◌, String, ◌≡◌, refl, ap, sym, subst, ◌∙◌, Bool, true, false, not, ◌&&◌, Option,
  none, some, List, [], ◌∷◌, ◌++◌, arith, if◌then◌else◌,
}
use mathlib.Core.List.{append-nil, append_assoc}
use pihub_remote_nrf.Prelude.Dict.{Dict}
use pihub_remote_nrf.Ble.Queue.{put_nowait}
use pihub_remote_nrf.Ble.Queue.Bounds.{Fits, put_nowait-Fits}
use pihub_remote_nrf.Reader.Filter.{InputEvent, Edge, Filter, on_event}
use pihub_remote_nrf.Reader.Loop.{
  Reader, emit, input, drain, no_device, open_failed, opened, closed, notify_disconnect, lose,
  is_gone, longer, Loss, gone, io_error, reader_error,
}
use pihub_remote_nrf.Reader.Steps.{
  Watched, edge_list, Step, reads, drains, finds_none, fails, opens_one, loses, closes, Reach, here,
  next, started, nothing, kept, lost, IsTelling, IsSound,
}

-- What put_nowait gives, it gives with the item last.
put_nowait-last :
    (maxsize : ℕ) (e : Edge) (q q' : List Edge)
    → put_nowait maxsize e q ≡ some q'
    → q' ≡ q ++ e ∷ []
unfolding put_nowait
put_nowait-last maxsize e q q' h = ground arith

longer_waits : (backoff : ℕ) → longer backoff ≤ 10000
unfolding longer
longer_waits backoff = ground arith

module _ (queue_max : ℕ) where
  -- An edge of an open device goes into the queue, or is counted.
  emit-IsSound :
      (e : Edge) (r : Reader) (made : List Edge) (opens : ℕ)
      → IsSound queue_max (record { reader = r; made = made; opens = opens })
      → IsSound queue_max (record { reader = emit e r; made = made ++ e ∷ []; opens = opens })
  unfolding emit
  emit-IsSound e r made opens v = by_put (put_nowait r.queue_max e r.edge_queue) refl
    where
      by_put :
          (p : Option (List Edge))
          → put_nowait r.queue_max e r.edge_queue ≡ p
          → IsSound queue_max (record {
            reader = elim p [
              | none ↦ record r { dropped_edges = suc r.dropped_edges }
              | some q ↦ record r { edge_queue = q }
            ];
            made = made ++ e ∷ [];
            opens = opens;
          })
      by_put none eq = record {
        same_max = v.same_max;
        fits = v.fits;
        in_order = lost e v.in_order;
        one_each = v.one_each;
        to_tell = v.to_tell;
        waits = v.waits;
      }
      by_put (some q) eq = record {
        same_max = v.same_max;
        fits =
            put_nowait-Fits queue_max e r.edge_queue q v.fits
              (subst (λ m. put_nowait m e r.edge_queue ≡ some q) v.same_max eq);
        in_order =
            rw
              (
                put_nowait-last r.queue_max e r.edge_queue q eq,
                sym (append_assoc r.delivered r.edge_queue (e ∷ [])),
              )
              (kept e v.in_order);
        one_each = v.one_each;
        to_tell = v.to_tell;
        waits = v.waits;
      }

  module _ (key_name : ℕ → Option String) (map : Dict String) where
    input-IsSound :
        (event : InputEvent) (s : Watched)
        → IsSound queue_max s
        → IsSound queue_max (record s {
          reader = input key_name map event s.reader;
          made = s.made ++ edge_list (on_event key_name map event s.reader.filter).1;
        })
    unfolding input
    input-IsSound event s v = by_edge (on_event key_name map event s.reader.filter)
      where
        retained :
            (f : Filter) → IsSound queue_max (record s { reader = record s.reader { filter = f } })
        retained f = record {
          same_max = v.same_max;
          fits = v.fits;
          in_order = v.in_order;
          one_each = v.one_each;
          to_tell = v.to_tell;
          waits = v.waits;
        }

        by_edge :
            (r : Filter × Option Edge)
            → IsSound queue_max (record s {
              reader = elim r.1 [
                | none ↦ record s.reader { filter = r.0 }
                | some e ↦ emit e (record s.reader { filter = r.0 })
              ];
              made = s.made ++ edge_list r.1;
            })
        by_edge (f, none) =
            subst
              (λ made.
                IsSound queue_max
                  (record s { reader = record s.reader { filter = f }; made = made }))
              (sym (append-nil s.made)) (retained f)
        by_edge (f, some e) =
            emit-IsSound e (record s.reader { filter = f }) s.made s.opens (retained f)

    drain-IsSound :
        (r : Reader) (s : Watched)
        → drain s.reader ≡ some r
        → IsSound queue_max s
        → IsSound queue_max (record s { reader = r })
    unfolding drain
    drain-IsSound r s h v = by_queue s.reader.edge_queue refl h
      where
        by_queue :
            (q : List Edge)
            → s.reader.edge_queue ≡ q
            → (elim q [
              | [] ↦ none
              | e ∷ rest ↦
                  some (record s.reader {
                    edge_queue = rest;
                    delivered = s.reader.delivered ++ e ∷ [];
                  })
            ])
              ≡ some r
            → IsSound queue_max (record s { reader = r })
        by_queue [] eq h = ground (arith, h)
        by_queue (e ∷ rest) eq h =
            let same : record s.reader {
              edge_queue = rest;
              delivered = s.reader.delivered ++ e ∷ [];
            }
                ≡ r =
              ap (λ o. elim o [ none ↦ r | some r' ↦ r' ]) h in
            subst (λ r. IsSound queue_max (record s { reader = r })) same
              (record {
                same_max = v.same_max;
                fits = shorter (subst (λ q. Fits queue_max q) eq v.fits);
                in_order = rw (append_assoc s.reader.delivered (e ∷ []) rest, sym eq) v.in_order;
                one_each = v.one_each;
                to_tell = v.to_tell;
                waits = v.waits;
              })
          where
            shorter : Fits queue_max (e ∷ rest) → Fits queue_max rest
            shorter f = ground (arith, f)

    told :
        (r : Reader)
        → r.disconnect_notified ≡ false
        → notify_disconnect r
          ≡ record r { disconnect_notified = true; disconnects = suc r.disconnects }
    unfolding notify_disconnect
    told r h =
        ap
          (λ b.
            if b
            then r
            else record r { disconnect_notified = true; disconnects = suc r.disconnects })
          h

    lose-IsSound :
        (why : Loss) (s : Watched)
        → s.reader.input_open ≡ true
        → s.reader.losing ≡ none
        → IsSound queue_max s
        → IsSound queue_max (record s { reader = lose why s.reader })
    unfolding lose
    lose-IsSound why s o n v = by_loss why
      where
        quiet : s.reader.disconnect_notified ≡ false
        quiet =
            let t : (s.reader.disconnect_notified && s.reader.input_open) ≡ false =
              subst (λ l. IsTelling l s.reader.input_open s.reader.disconnect_notified) n
                v.to_tell in
            ground (arith, o, t)

        waiting :
            (why : Loss) (error : Option String)
            → is_gone why ≡ false
            → IsSound queue_max
                (record s { reader = record s.reader { last_error = error; losing = some why } })
        waiting why error other = record {
          same_max = v.same_max;
          fits = v.fits;
          in_order = v.in_order;
          one_each = v.one_each;
          to_tell = (o, quiet ∙ sym other);
          waits = v.waits;
        }

        by_loss : (why : Loss) → IsSound queue_max (record s { reader = lose why s.reader })
        by_loss (gone errno) =
            let error = some (str_append "device_disconnected errno=" errno) in
            rw (told (record s.reader { last_error = error }) quiet) (record {
              same_max = v.same_max;
              fits = v.fits;
              in_order = v.in_order;
              one_each = ground (arith, v.one_each, o, quiet);
              to_tell = (o, refl);
              waits = v.waits;
            })
        by_loss (io_error exc) = waiting (io_error exc) (some (str_append "io_error: " exc)) refl
        by_loss (reader_error exc) =
            waiting (reader_error exc) (some (str_append "reader_error: " exc)) refl

    closed-IsSound :
        (why : Loss) (s : Watched)
        → s.reader.losing ≡ some why
        → IsSound queue_max s
        → IsSound queue_max (record s { reader = closed why s.reader })
    unfolding closed
    closed-IsSound why s l v =
        by_loss why
          (subst (λ l. IsTelling l s.reader.input_open s.reader.disconnect_notified) l v.to_tell)
      where
        ended :
            (why : Loss)
            → is_gone why ≡ false
            → IsTelling (some why) s.reader.input_open s.reader.disconnect_notified
            → IsSound queue_max (record s {
              reader = notify_disconnect (record s.reader { input_open = false; losing = none });
            })
        ended why other t =
            rw (told (record s.reader { input_open = false; losing = none }) (t.1 ∙ other))
              (record {
                same_max = v.same_max;
                fits = v.fits;
                in_order = v.in_order;
                one_each = ground (arith, v.one_each, t.0, t.1 ∙ other);
                to_tell = refl;
                waits = v.waits;
              })

        by_loss :
            (why : Loss)
            → IsTelling (some why) s.reader.input_open s.reader.disconnect_notified
            → IsSound queue_max (record s { reader = closed why s.reader })
        by_loss (gone errno) t = record {
          same_max = v.same_max;
          fits = v.fits;
          in_order = v.in_order;
          one_each = ground (arith, v.one_each, t.1);
          to_tell = ground arith;
          waits = longer_waits s.reader.backoff;
        }
        by_loss (io_error exc) t = ended (io_error exc) refl t
        by_loss (reader_error exc) t = ended (reader_error exc) refl t

    -- A round that finds the input closed.
    at_round :
        (losing : Option Loss) (input_open notified : Bool)
        → input_open ≡ false
        → IsTelling losing input_open notified
        → IsTelling losing false notified × IsTelling losing true false
    at_round none input_open notified o t = (ground arith, refl)
    at_round (some why) input_open notified o t = absurd (ground (arith, o, t.0))

    Step-IsSound :
        {s t : Watched} → Step key_name map s t → IsSound queue_max s → IsSound queue_max t
    unfolding no_device open_failed opened
    Step-IsSound (reads event s o n) v = input-IsSound event s v
    Step-IsSound (drains r s h) v = drain-IsSound r s h v
    Step-IsSound (finds_none present s o) v = record {
      same_max = v.same_max;
      fits = v.fits;
      in_order = v.in_order;
      one_each =
          v.one_each
          ∙ ap
              (λ b. s.reader.disconnects + (if b && not s.reader.disconnect_notified then 1 else 0))
              o;
      to_tell =
          (at_round s.reader.losing s.reader.input_open s.reader.disconnect_notified o v.to_tell).0;
      waits = longer_waits s.reader.backoff;
    }
    Step-IsSound (fails present exc s o) v = record {
      same_max = v.same_max;
      fits = v.fits;
      in_order = v.in_order;
      one_each =
          v.one_each
          ∙ ap
              (λ b. s.reader.disconnects + (if b && not s.reader.disconnect_notified then 1 else 0))
              o;
      to_tell =
          (at_round s.reader.losing s.reader.input_open s.reader.disconnect_notified o v.to_tell).0;
      waits = longer_waits s.reader.backoff;
    }
    Step-IsSound (opens_one present grabbed s o) v = record {
      same_max = v.same_max;
      fits = v.fits;
      in_order = v.in_order;
      one_each = ground (arith, v.one_each, o);
      to_tell =
          (at_round s.reader.losing s.reader.input_open s.reader.disconnect_notified o v.to_tell).1;
      waits = ground arith;
    }
    Step-IsSound (loses why s o n) v = lose-IsSound why s o n v
    Step-IsSound (closes why s l) v = closed-IsSound why s l v

    -- Over every order of the reader's rounds from its start, with any names of key codes and any scan code
    -- map: the queue keeps its bound; the edges delivered and those still in the queue are, in order, the ones
    -- made, less as many as were counted as dropped; every device that was opened has had its
    -- disconnect told exactly once, but for one that is open and whose disconnect is not told yet: of a device that is
    -- gone it is told before the wait that follows, with its input still open, after another error when that wait
    -- is over, and of no other open device; and the wait never grows past ten seconds.
    pub reader-IsSound :
        (s : Watched) → Reach key_name map (started queue_max) s → IsSound queue_max s
    reader-IsSound s here = record {
      same_max = refl;
      fits = ground arith;
      in_order = nothing;
      one_each = refl;
      to_tell = refl;
      waits = ground arith;
    }
    reader-IsSound s (next r step) = Step-IsSound step (reader-IsSound _ r)
