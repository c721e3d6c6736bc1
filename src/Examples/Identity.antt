-- ===== src/Examples/Identity.antt =====
-- A run that is saved twice and whose delivery is bound (hollysys_controller/store.py). A codec here
-- keeps one text for one record.
use hermes_agents_by_kanban.Prelude.{◌≡◌, refl, none, some, [], ◌∷◌, text_eq}
use hermes_agents_by_kanban.Table.{lookup, put}
use hermes_agents_by_kanban.Exec.{ok}
use hermes_agents_by_kanban.Store.Identity.{
  RunRecord, DeliveryBinding, Codec, IdentityStore, save_run, run_record, bind_delivery,
  delivery_binding, set_cursor, has_generation, has_mr_iid, put_run,
}
use hermes_agents_by_kanban.Store.Identity.Permanent.{
  Permanent, IdentitySteps, here, saved, bound, polled, IdentitySteps-Permanent,
}
use hermes_agents_by_kanban.Store.Identity.Reads.{
  answer, save_run-run_record, save_run_again, bind_delivery-delivery_binding,
}

abbrev saved_run : RunRecord
saved_run = record {
  run_key = "run";
  source_key = "source";
  run_generation = "g-1";
  started_at = "2026-01-01T00:00:00+00:00";
  project = record {
    host = "gitlab";
    project_id = 7;
    project_path = "group/app";
    project_display_name = "App";
    default_branch = "main";
  };
  source = record {
    prd_path = "docs/prd/a.md";
    prd_commit_sha = "c";
    prd_blob_sha = "b";
    prd_blob_url = "https://gitlab/b";
    prd_mr_url = "https://gitlab/m";
  };
  artifact_scope = record {
    source_prd_path = "docs/prd/a.md";
    root_path = "docs/prd/a";
    spec_patterns = "specs/spec-*.md" ∷ [];
    plan_patterns = "plans/plan-*.md" ∷ [];
    tasks_patterns = "tasks/task-*.md" ∷ [];
  };
  workspace = record {
    board = "app";
    checkout = "/w/app";
    worktree = "/w/app-run";
    branch = "run";
    target_branch = "main";
    repository_base_sha = "c";
  };
  origin = record {
    message_id = "om_1";
    chat_id = "oc_1";
    thread_id = none;
    chat_type = "group";
    initiator_open_id = "ou_1";
  };
}

abbrev other_run : RunRecord
other_run = record saved_run { run_generation = "g-2" }

abbrev delivery : DeliveryBinding
delivery = record {
  mr_iid = 12;
  mr_url = "https://gitlab/12";
  creator = "bot";
  created_at = "2026-01-01T01:00:00+00:00";
  initial_head_sha = "c";
  claim_note_id = 3;
}

abbrev run_codec : Codec RunRecord
run_codec = record {
  dump = λ run. run.run_generation;
  parse = λ text. some (record saved_run { run_generation = text });
  is_same = λ a b. text_eq.beq a.run_generation b.run_generation;
}

abbrev binding_codec : Codec DeliveryBinding
binding_codec = record {
  dump = λ binding. binding.creator;
  parse = λ text. some (record delivery { creator = text });
  is_same = λ a b. text_eq.beq a.creator b.creator;
}

abbrev blank_store : IdentityStore
blank_store = record { runs = []; delivery_bindings = []; event_cursor = [] }

abbrev with_run : IdentityStore
with_run = (save_run run_codec 10 saved_run blank_store).1

save_run-run_record_example :
    ((save_run run_codec 10 saved_run blank_store).0 ≡ ok tt)
    × ((run_record run_codec "run" with_run).0 ≡ ok (some saved_run))
unfolding lookup has_generation
save_run-run_record_example = save_run-run_record run_codec 10 saved_run blank_store refl refl refl

save_run_again_example :
    save_run run_codec 20 other_run with_run ≡ (answer run_codec saved_run other_run, with_run)
unfolding save_run run_record lookup has_generation put_run put
save_run_again_example = save_run_again run_codec 20 other_run saved_run with_run refl

bind_delivery-delivery_binding_example :
    ((bind_delivery run_codec binding_codec 30 "run" delivery with_run).0 ≡ ok tt)
    × ((delivery_binding binding_codec "run"
          (bind_delivery run_codec binding_codec 30 "run" delivery with_run).1).0
        ≡ ok (some delivery))
unfolding save_run run_record lookup has_generation has_mr_iid put_run put
bind_delivery-delivery_binding_example =
    bind_delivery-delivery_binding run_codec binding_codec 30 "run" delivery saved_run with_run refl
      refl refl refl

identity_history : IdentitySteps run_codec binding_codec with_run (
    set_cursor 40 "app" 5
      (save_run run_codec 35 other_run
        (bind_delivery run_codec binding_codec 30 "run" delivery with_run).1).1)
identity_history = polled 40 "app" 5 (saved 35 other_run (bound 30 "run" delivery here))

IdentitySteps-Permanent_example : Permanent with_run (
    set_cursor 40 "app" 5
      (save_run run_codec 35 other_run
        (bind_delivery run_codec binding_codec 30 "run" delivery with_run).1).1)
IdentitySteps-Permanent_example = IdentitySteps-Permanent run_codec binding_codec identity_history
