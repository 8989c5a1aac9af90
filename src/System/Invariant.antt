-- ===== src/System/Invariant.antt =====
-- Every step of every thread keeps the invariant of the system.
use cppami.Prelude.{inl, inr, Option-cases, [], ◌≡◌, refl}
use cppami.System.Intake.{
  reads-Taken, hands-Taken, work-Taken, wake-Taken, clear-Taken, notify-Taken,
}
use cppami.System.Parsing.{finished_woken, wake-Parsed, work-Parsed, parse-Parsed, make-Parsed}
use cppami.System.Parts.{Taken, Parsed, Queued, Replayed}
use cppami.System.Queueing.{
  move-Queued, report-Queued, add-Queued, work-Queued, wake-Queued, clear-Queued, notify-Queued,
  turn-Replayed, dispatch-Replayed, call-Replayed,
}
use cppami.System.History.{replay, act}
use cppami.System.{
  System, start, parse, asked, forced, Step, reads, hands, parses, reports, adds, turns, dispatches,
  asks, forces, wakes_parser, wakes_dispatcher, stops_reader, stops_parser, notifies_parser,
  stops_dispatcher, notifies_dispatcher, Reach, here, step,
}
use cppami.TcpSocket.{TcpSocket}
use cppami.StreamParser.{process_chunks, set_ami_version, dispatch}
use cppami.Worker.Invariant.{start-Inv}
use cppami.Worker.Items.{work-Turn}
use cppami.Worker.{next_item, work}

pub record Inv (s : System) : Type 0 where
  pub taken : Taken s.reader s.chunks s.received
  pub parsed : Parsed s.chunks.processed s.chunks.place s.parser s.pending s.made
  pub queued : Queued s.chunks.place s.events s.made s.ami_version
  pub replayed : Replayed s.events.processed s.dispatcher s.history

pub initial-Inv : (socket : TcpSocket) → Inv (start socket)
unfolding process_chunks replay
initial-Inv socket = record {
  taken = record { gained = refl; quiet = λ e. cc; inv = start-Inv };
  parsed = record { parsed = refl; idle = λ e. refl };
  queued = record { queued = refl; reported = refl; quiet = λ e. cc; inv = start-Inv };
  replayed = record { replayed = refl; told_all = refl };
}

module _ {s : System} (v : Inv s) where
  -- The parser's thread is not at its end while it has callbacks to make.
  parse-Inv : s.pending ≡ [] → Inv (parse s)
  unfolding parse
  parse-Inv e =
      let moved = move-Queued v.queued (work s.chunks).place (work-Turn s.chunks).stays in
      elim (Option-cases (next_item s.chunks)) [
        | inl n ↦
            rw (n, parse)
              (record {
                taken = work-Taken v.taken;
                parsed = work-Parsed s.chunks v.parsed n e;
                queued = moved;
                replayed = v.replayed;
              })
        | inr (c, n) ↦
            rw (n, parse)
              (record {
                taken = work-Taken v.taken;
                parsed = parse-Parsed s.chunks v.parsed c n e;
                queued = moved;
                replayed = v.replayed;
              })
      ]

pub Step-Inv : {s t : System} → Step s t → Inv s → Inv t
unfolding act
Step-Inv (reads os r e ran) v = record {
  taken = reads-Taken v.taken os r e ran;
  parsed = v.parsed;
  queued = v.queued;
  replayed = v.replayed;
}
Step-Inv {s} (hands buf e free) v = record {
  taken = hands-Taken v.taken buf e free;
  parsed = wake-Parsed s.chunks v.parsed;
  queued = move-Queued v.queued _ (finished_woken s.chunks.place);
  replayed = v.replayed;
}
Step-Inv (parses e) v = parse-Inv v e
Step-Inv {s} (reports version rest e) v = record {
  taken = v.taken;
  parsed = make-Parsed s.chunks v.parsed (set_ami_version version) rest e;
  queued = report-Queued v.queued version;
  replayed = v.replayed;
}
Step-Inv {s} (adds message rest e free) v = record {
  taken = v.taken;
  parsed = make-Parsed s.chunks v.parsed (dispatch message) rest e;
  queued = add-Queued v.queued message free (λ f. let none_left = v.parsed.idle f in cc);
  replayed = v.replayed;
}
Step-Inv {s} (turns n) v = record {
  taken = v.taken;
  parsed = v.parsed;
  queued = work-Queued v.queued;
  replayed = turn-Replayed s.events v.replayed n;
}
Step-Inv {s} (dispatches message d n ran) v = record {
  taken = v.taken;
  parsed = v.parsed;
  queued = work-Queued v.queued;
  replayed = dispatch-Replayed s.events v.replayed message d n ran;
}
Step-Inv {s} (asks action_id live) v = record {
  taken = v.taken;
  parsed = v.parsed;
  queued = v.queued;
  replayed = call-Replayed s.events v.replayed (asked action_id) _ refl refl;
}
Step-Inv {s} (forces action_id a d live ran) v = record {
  taken = v.taken;
  parsed = v.parsed;
  queued = v.queued;
  replayed = call-Replayed s.events v.replayed (forced action_id a) d refl ran;
}
Step-Inv {s} wakes_parser v = record {
  taken = wake-Taken v.taken;
  parsed = wake-Parsed s.chunks v.parsed;
  queued = move-Queued v.queued _ (finished_woken s.chunks.place);
  replayed = v.replayed;
}
Step-Inv wakes_dispatcher v = record {
  taken = v.taken;
  parsed = v.parsed;
  queued = wake-Queued v.queued;
  replayed = v.replayed;
}
Step-Inv stops_reader v = record {
  taken = record { gained = v.taken.gained; quiet = v.taken.quiet; inv = v.taken.inv };
  parsed = v.parsed;
  queued = v.queued;
  replayed = v.replayed;
}
Step-Inv (stops_parser gone e) v = record {
  taken = clear-Taken v.taken gone e;
  parsed = v.parsed;
  queued = v.queued;
  replayed = v.replayed;
}
Step-Inv {s} (notifies_parser e) v = record {
  taken = notify-Taken v.taken e;
  parsed = wake-Parsed s.chunks v.parsed;
  queued = move-Queued v.queued _ (finished_woken s.chunks.place);
  replayed = v.replayed;
}
Step-Inv (stops_dispatcher gone joins e) v = record {
  taken = v.taken;
  parsed = v.parsed;
  queued = clear-Queued v.queued gone e;
  replayed = v.replayed;
}
Step-Inv (notifies_dispatcher e) v = record {
  taken = v.taken;
  parsed = v.parsed;
  queued = notify-Queued v.queued e;
  replayed = v.replayed;
}

pub Reach-Inv : {socket : TcpSocket} {s : System} → Reach (start socket) s → Inv s
Reach-Inv {socket} here = initial-Inv socket
Reach-Inv (step r st) = Step-Inv st (Reach-Inv r)
