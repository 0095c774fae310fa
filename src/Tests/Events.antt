-- ===== src/Tests/Events.antt =====
-- An event that mentions an Agent, twice.
use open_im.Prelude.{ℕ, true, some, [], ◌∷◌, ◌≡◌, refl}
use open_im.Database.{Db}
use open_im.Database.Tx.{ok, transact, update_lanes, insert_run_events}
use open_im.Database.Tx.Tools.{insert_run, insert_lane}
use open_im.Agent.Resolve.{Source, Trigger, EnqueueResult}
use open_im.Agent.Enqueue.{
  enqueue, enqueue_tx, enqueue_new, enqueue_resolved, enqueue_one, insert_at_end, append_run,
}
use open_im.Agent.Mentions.{scan, extract_mentions, IsDistinct, extract_mentions-IsDistinct}
use open_im.Agent.Intake.{enqueue_again}
use open_im.Tests.Data.{first, db_of}

abbrev start : Db
start = record (db_of first) {
  members = record { id = "member"; tenant_id = "tenant"; is_active = true } ∷ [];
  triggers =
      record {
        id = "trigger";
        tenant_id = "tenant";
        agent_id = "agent";
        trigger_type = "mention_alias";
        trigger_value = "@agent";
        enabled = true;
      }
      ∷ [];
  definitions = record { id = "agent"; tenant_id = "tenant"; status = "active" } ∷ [];
  deployments =
      record {
        id = "deployment";
        tenant_id = "tenant";
        agent_id = "agent";
        slot = "production";
        active_version_id = "version";
      }
      ∷ [];
  versions =
      record {
        id = "version";
        tenant_id = "tenant";
        agent_id = "agent";
        spec_checksum = "sha256:0";
        capability_snapshot_id = some "snapshot";
      }
      ∷ [];
}

abbrev event : Trigger
event = record {
  event_id = "event-2";
  tenant_id = "tenant";
  member_id = "member";
  source_channel = "openim";
  conversation_id = "conversation";
  sender_id = "alice";
  session_type = 1;
  mentions = record { alias = "@agent"; prompt = "hello" } ∷ [];
}

abbrev at : ℕ → Source
at offset = record { topic = "events"; partition = 0; offset = offset }

abbrev given : EnqueueResult
given = record { run_id = "r9"; rejection_reason = "" }

enqueued : (enqueue "r9" 500 (at 7) event start).0 ≡ ok given
unfolding enqueue enqueue_tx enqueue_new enqueue_resolved enqueue_one insert_at_end append_run
    transact update_lanes insert_run_events insert_run insert_lane
enqueued = refl

enqueue_again_example :
    enqueue "r10" 600 (at 8) event (enqueue "r9" 500 (at 7) event start).1
    ≡ (ok given, (enqueue "r9" 500 (at 7) event start).1)
enqueue_again_example =
    enqueue_again "r9" "r10" 500 600 (at 7) (at 8) event start given enqueued refl

extract_mentions-IsDistinct_example : IsDistinct (extract_mentions "hi @Agent, @agent and @bob")
extract_mentions-IsDistinct_example = extract_mentions-IsDistinct "hi @Agent, @agent and @bob"

two_found :
    extract_mentions "hi @Agent, @agent and @bob"
    ≡ record { alias = "@agent"; prompt = "hi , @agent and @bob" }
      ∷ record { alias = "@bob"; prompt = "hi @Agent, @agent and" }
      ∷ []
unfolding scan
two_found = refl
