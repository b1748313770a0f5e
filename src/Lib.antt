-- ===== src/Lib.antt =====
-- Verification of the core of UniFi Network Rules, a custom integration of Home Assistant that
-- shows the rules of a UniFi controller as switches. All paths below are under
-- custom_components/unifi_network_rules, but for scripts/migrate_triggers.py.
--
-- The parts and how they interact. A switch (switches/base.py) waits for a row of toggles to end
-- and then puts a call to the controller into the queue of operations (queue.py), whose two loops
-- make the calls and retry what fails; until the controller's state is known, the switch shows the
-- state that was asked for. A toggle is registered with the polling manager (smart_polling.py),
-- which refreshes the coordinator soon after it, and with the authentication manager
-- (coordination/auth_manager.py) as begun by Home Assistant. A refresh fetches data
-- (coordination/data_fetcher.py) with a session of the controller (udm/authentication.py), lets
-- the state manager (coordination/state_manager.py) accept it or fall back on older data, and
-- gives it to the change detector (unified_change_detector.py), which compares two snapshots and
-- raises events. The entity manager (coordination/entity_manager.py) adds switches for the rules
-- that are new in the data and removes those of the rules that are gone. The services read rule
-- ids back from entity ids (helpers/id_parser.py). A call that is put into the queue is wrapped
-- (udm/api.py): the wrapper tells the caller how the call ended, after a recovery from a failed
-- authentication or with a corrected path. A traffic route may have a second switch, for its kill
-- switch (switches/traffic_route.py). The services on rules (services/rule_services.py) queue calls
-- as the switches do. The events of the detector pass the filters of the
-- triggers that users have set up (unified_trigger.py); a script (scripts/migrate_triggers.py)
-- rewrites the triggers of older versions.
--
-- The files.
-- Prelude, Text, Dict, Value: shared names and lemmas; texts as lists of character codes; Python's
--   dictionaries as lists of entries in order of insertion; JSON values with Python's `==` and
--   truth.
-- Operation: `QueuedOperation` and `_is_retryable_error` of queue.py.
-- Queue: `ApiOperationQueue`, its state and the operations that callers make. Queue/Worker has
--   `_process_queue`, `_process_retry_queue` and `_execute_operation`, cut at their awaits into the
--   steps of an event loop, and Queue/Runs the events; the other files below Queue have proofs.
-- SmartPolling: `SmartPollingManager` with the timers and tasks that it has in the event loop.
--   SmartPolling/Runs has `_execute_debounced_poll` and `_execute_smart_poll`, cut at the refresh.
-- Session: `_try_login`, `refresh_session` and `_ensure_proxy_prefix_in_path` of the
--   `AuthenticationMixin`.
-- Auth: `CoordinatorAuthManager`, its expiry tasks as a list with due times.
-- State: `CoordinatorStateManager`. State/Devices has `check_for_device_state_changes`, which
--   takes the flags of Auth.
-- Coordinator: `_async_update_data` of `UnifiRuleUpdateCoordinator`, with State and Auth; the
--   calls of the other parts are a list. It keeps what an update returns, as the class of Home
--   Assistant does.
-- Api: the recovery of `UDMAPI` from authentication failures. Api/Wrapper has the wrapper of
--   `queue_api_operation` and `_handle_path_error`, and Api/Retry runs it as an operation of Queue.
-- Fetcher: `CoordinatorDataFetcher`; Fetcher/Cycle has `fetch_all_entity_data` and what comes
--   before it.
-- Entities: `CoordinatorEntityManager`, the loops of its discovery. Entities/Creation has what
--   follows them, with `discover_and_add_new_entities`, and Entities/Deletion
--   `check_for_deleted_rules`, `_process_deleted_rules` and `_remove_entity_async`. IdSet has
--   Python's sets of ids.
-- Switch: of `UnifiRuleSwitch`, the toggle, its debouncing and the optimistic state, cut at the
--   awaits. Switch/Runs has the events, with the timer's callback; Switch/SelfRemoval has
--   `async_initiate_self_removal` and the links of parents and children.
-- IdParser: the four functions of helpers/id_parser.py.
-- Detector: `_determine_change_action`. Detector/Creation has `_create_change_event` and
--   `_get_entity_name`, Detector/Detection has `_detect_changes` and `detect_and_fire_changes`, and
--   Detector/Snapshot has `_build_state_snapshot` and `get_status`.
-- RuleId: `get_rule_id` of helpers/rule.py; RuleId/Agreement compares its unique ids with those of
--   the detector's events. Sanitize: `sanitize_entity_id` of helpers/rule.py and the ids of
--   children.
-- Networks: `is_vpn_network`, `classify_vpn_type` and `is_default_network` of helpers/rule.py.
-- Migration: of scripts/migrate_triggers.py, `is_legacy_unifi_trigger` and `migrate_trigger`, over
--   loaded YAML. Migration/Templates has `update_trigger_templates`, and Migration/Script has
--   `scan_automations` and `migrate_automations`; an exception is `none`.
-- Triggers: the schema and `_matches_filters` of unified_trigger.py.
-- KillSwitch: `UnifiTrafficRouteKillSwitch` of switches/traffic_route.py, with the fields of Switch;
--   KillSwitch/Created has `create_traffic_route_kill_switch`.
-- Services: `async_toggle_rule` of services/rule_services.py, with the arguments that the methods of
--   udm need. Services/Toggle puts the calls that it queues into the wrapper of Api.
--   Services/Deletion has `async_delete_rule`, with IdParser, and Services/Bulk has
--   `async_bulk_update_rules`.
-- A file Tests below a module has runs at concrete inputs.
--
-- Bounds and choices. Only the recursion of `async_initiate_self_removal` takes fuel, its depth:
-- two more than the number of entities is enough. The loops of the code that go on until they are
-- stopped are sequences of events, and every theorem on a run holds for all of them; the other
-- loops are structural. Times are natural numbers (milliseconds in the queue and in switches,
-- seconds elsewhere) and arguments, as are the answers of the controller, of the coordinator and
-- of the called operations. A clock that goes back is not modelled: a difference of times stops at
-- zero. Called operations and their results are numbers. Letters are put in lower case by the
-- ASCII rule. Names and unique ids in events are kept as a template with the values that are put
-- into it; in a snapshot, the text that an f-string puts in for a value is a parameter. The ids of
-- a snapshot's entities and the keys of YAML are texts. The validators of Home Assistant are
-- parameters of the triggers' schema.
--
-- Not modelled. Two logins at a time; two recoveries of `UDMAPI` at a time; numbers with a
-- fraction; logging; failing imports of the switches' classes; of the switches, the availability in
-- the base class, the registration in Home Assistant, the kill switch of OON policies, which repeats
-- that of traffic routes, and the other classes of rule types, which only set an icon or pass a call
-- on; of the migration script, files, backups, printing and the command line; attaching triggers to
-- the dispatcher; of the rule helpers, the names that are shown and the object ids, which only put
-- text together. The parts that pass requests on to the controller or to Home Assistant (the rest of
-- udm and services, set-up) and the typed views of raw dictionaries (models) have no logic of their
-- own that the other parts rely on; of the coordinator, its set-up and the methods that only
-- delegate are left out.
pub mod Prelude
pub mod Text
pub mod Operation
pub mod Queue
pub mod SmartPolling
pub mod Dict
pub mod Session
pub mod Auth
pub mod State
pub mod IdParser
pub mod Value
pub mod Detector
pub mod RuleId
pub mod IdSet
pub mod Entities
pub mod KillSwitch
pub mod Switch
pub mod Api
pub mod Fetcher
pub mod Coordinator
pub mod Sanitize
pub mod Networks
pub mod Migration
pub mod Triggers
pub mod Services
