-- ===== src/Runtime/Tests.antt =====
-- The runtime at a concrete task: pick what is seen, with a retry and a fallback. The world is the
-- number of calls so far; the third call and the later ones succeed, and the operator stops after
-- the eighth.
use gp4_ws.Common.{
  ℕ, ◌+◌, ◌≤◌, String, true, false, not, Option, none, some, [], ◌∷◌, ◌≡◌, refl, ltb, arith, lookup,
}
use gp4_ws.Common.Int.{pos}
use gp4_ws.Common.Outcome.{Outcome, ok, pure, lift, update, gets, ◌>>=◌}
use gp4_ws.Python.{
  PyLib, Json, arr, obj, str, Items, Fields, end, field, to_int, is_truthy, to_text,
}
use gp4_ws.Runtime.Task.{
  RuntimeError, FactoryTask, NodeFields, TaskNode, node, nil, cons, collection,
}
use gp4_ws.Runtime.State.{RuntimeStepResult, step, TaskRuntime, TaskRuntimeReport, start}
use gp4_ws.Runtime.Nodes.{
  run_node, retry, for_each, run_type, unless_stopped, run_skill, call_skill, poll_with, bind,
  resolve_bindings,
}
use gp4_ws.Runtime.Replans.{max_replans_for_task, replan_loop, replan, run}
use gp4_ws.Runtime.Polls.{Polled, run-Polled}
use gp4_ws.Runtime.Counts.{Counted, run-Counted}
use gp4_ws.Runtime.Budget.{calls, cost, run_node-cost}
use gp4_ws.Runtime.Parse.{
  parse_node, parse_factory_task, optional_positive_int, children_payload, dict_or_empty,
}
use gp4_ws.Runtime.Plan.{node_to_runtime_plan}
use gp4_ws.Runtime.WellFormed.{TextLaws, WellFormed}
use gp4_ws.Runtime.Accepted.{TaskFits, parse_factory_task-TaskFits}
use gp4_ws.Runtime.RoundTrip.{canonical, parse_node-plan}
use gp4_ws.Runtime.Restored.{run_node-parsed_plan}
use gp4_ws.Runtime.Limits.{replan_count-bounded, replan_loop-fuel}

-- Floats are natural numbers here.
abbrev py : PyLib
py = record {
  Float = ℕ;
  lt = ltb;
  le = λ a b. not (ltb b a);
  add = λ a b. a + b;
  sub = λ a b. a;
  mul = λ a b. a;
  div = λ a b. a;
  sqrt = λ a. a;
  is_finite = λ a. true;
  decimal = λ m k. m;
  negative = λ a. a;
  of_int = λ i. none;
  parse_float = λ s. none;
  truncate = λ f. ok (pos f);
  parse_int = λ s. none;
  strip_upper = λ v. "";
  strip = λ s. s;
  render = λ v. "?";
  loads = λ s. none;
  dumps = λ v. "";
}

abbrev fields : String → String → NodeFields ℕ
fields type name = record {
  type = type;
  name = name;
  args = end;
  count = none;
  collection = "";
  item_name = "item";
  condition = Json.null;
  until = Json.null;
  on_failure = Json.null;
}

abbrev leaf : String → Fields ℕ → TaskNode ℕ
leaf name args = node (record (fields "skill" name) { args = args }) nil

abbrev pick_visible : TaskNode ℕ
pick_visible =
    node (record (fields "for_each" "") { collection = "visible_objects"; item_name = "part" })
      (cons
        (node (record (fields "retry" "") { count = some (pos 3) })
          (cons (leaf "pick" (field "object" (str "$part") end)) nil))
        nil)

abbrev task : FactoryTask ℕ
task = record {
  task_id = "t";
  root = pick_visible;
  mode = "supervised_hardware";
  version = "1.0";
  operator_summary = "";
  limits = end;
  replan_policy = field "max_replans" (Json.int (pos 2)) end;
}

abbrev ask_again : TaskRuntimeReport → ℕ → Outcome RuntimeError (Option (FactoryTask ℕ)) × ℕ
ask_again report n = (ok (some task), n)

abbrev rt : TaskRuntime py
rt = record {
  World = ℕ;
  world_model = record {
    objects = ("bolt", field "id" (str "bolt") end) ∷ ("nut", field "id" (str "nut") end) ∷ [];
    collections = [];
  };
  max_replans = pos 1;
  skill_executor = λ name args n. (
    ok (step (record { success = not (ltb n 2); reason = "slipped"; requests_replan = ltb 4 n })),
    n + 1,
  );
  is_stopped_fn = some λ n. (ltb 7 n, n);
  replan_handler = some ask_again;
}

run-Polled_example : Polled (run py rt task (start py rt 0)).1.actions
run-Polled_example = run-Polled py rt (λ n. (ltb 7 n, n)) refl task 0

run-Counted_example : Counted py rt (run py rt task (start py rt 0)).1
run-Counted_example = run-Counted py rt task 0

run_node-cost_example :
    calls (run_node py rt pick_visible end (start py rt 0)).1.actions
    ≤ calls (start py rt 0).actions + cost py rt pick_visible
run_node-cost_example = run_node-cost py rt pick_visible end (start py rt 0)

the_limit : max_replans_for_task py rt task ≡ ok 2
unfolding max_replans_for_task to_int
the_limit = refl

-- Four calls: the first two fail.
four_calls : calls (run py rt task (start py rt 0)).1.actions ≡ 4
unfolding run replan run_node run_type for_each retry unless_stopped run_skill call_skill poll_with
    bind resolve_bindings collection lookup pure lift update gets ◌>>=◌
four_calls = refl

replan_count-bounded_example : (run py rt task (start py rt 0)).1.replan_count ≤ 2
replan_count-bounded_example = replan_count-bounded py rt task 0 2 the_limit

abbrev wants_replan : RuntimeStepResult
wants_replan = record { success = false; reason = "lost"; requests_replan = true }

replan_loop-fuel_example :
    replan_loop py rt 3 ask_again 2 wants_replan (start py rt 0)
    ≡ replan_loop py rt 4 ask_again 2 wants_replan (start py rt 0)
replan_loop-fuel_example =
    replan_loop-fuel py rt 3 ask_again 2 wants_replan (start py rt 0) (omega arith)

laws : TextLaws py
laws = record { strip_strip = λ s. refl; render_filled = λ v. refl }

abbrev pick_payload : Json ℕ
pick_payload = obj (
    field "type" (str "for_each") (
      field "collection" (str "visible_objects") (
        field "item_name" (str "part") (
          field "children"
            (arr (
              Items.cons
                (obj (
                  field "type" (str "retry") (
                    field "count" (Json.int (pos 3)) (
                      field "children"
                        (arr (
                          Items.cons
                            (obj (
                              field "type" (str "skill") (
                                field "name" (str "pick")
                                  (field "args" (obj (field "object" (str "$part") end)) end))))
                            Items.nil))
                        end))))
                Items.nil))
            end))))

abbrev payload : Json ℕ
payload = obj (
    field "task_type" (str "factory_task") (
      field "task_id" (str "t") (
        field "root" pick_payload
          (field "replan_policy" (obj (field "max_replans" (Json.int (pos 2)) end)) end))))

payload_parses : parse_factory_task py payload ≡ ok task
unfolding parse_factory_task parse_node optional_positive_int children_payload dict_or_empty
    is_truthy to_text
payload_parses = refl

parse_factory_task-TaskFits_example : TaskFits py laws task
parse_factory_task-TaskFits_example = parse_factory_task-TaskFits py laws payload payload_parses

pick_visible-WellFormed : WellFormed py pick_visible
pick_visible-WellFormed =
    let fits : TaskFits py laws task = parse_factory_task-TaskFits py laws payload payload_parses in
    fits.root

parse_node-plan_example :
    parse_node py [] (node_to_runtime_plan pick_visible) ≡ ok (canonical pick_visible)
parse_node-plan_example = parse_node-plan py [] pick_visible pick_visible-WellFormed

plan_parses : parse_node py [] (node_to_runtime_plan pick_visible) ≡ ok pick_visible
unfolding node_to_runtime_plan parse_node optional_positive_int children_payload dict_or_empty
    is_truthy to_text
plan_parses = refl

run_node-parsed_plan_example : run_node py rt pick_visible end ≡ run_node py rt pick_visible end
run_node-parsed_plan_example =
    run_node-parsed_plan py rt [] pick_visible pick_visible end pick_visible-WellFormed plan_parses
