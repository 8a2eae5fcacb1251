-- ===== src/Lib.antt =====
-- The gm validator (validator/src/gm_validator): a service that, on every tick, reads the open epoch
-- from the chain, waits until the newest closed epoch is finalized in a bucket, mirrors its artifacts,
-- turns the miners' rows into a weight vector of 65535 units and submits it.
--
-- The parts, each with the file that it models:
--   Economics   alpha_economics.py: `Epoch` has `compute_epoch_weights`, `Normalize` has
--               `normalize_weights`, and `Water` has `_reclaim_overflow` and `_water_level`.
--   Scoring     scoring.py: `Rows` has `load_aggregated` and `score`, `Weights` has
--               `compute_weights`, and `Json` the values of the rows.
--   Validator   validator.py: `State` has the attributes of a `Validator`, `Target` the start of a tick
--               up to `_select_target_epoch`, `Process` has `_process_epoch` and
--               `_process_target_epoch`, `Loop` has `process_once` and the loop of main.py's `_run`,
--               and `Report` what a tick logs of its outcome and of a vector.
--   Mirror      s3_mirror.py: `S3Mirror`, over a bucket and a disk; `Names` and `Keys` have its
--               directories, paths and keys as texts.
--   Config      config.py: the settings, with `from_env`; `Parsers` has the readers of one variable.
--   Adapter     bittensor_adapter.py: the weight status, the protocols and the in-memory chain.
--   Connect     subtensor_connect.py: `run_with_timeout` and `connect_subtensor`.
--   Submitter   bittensor_real.py: `RealSubmitter`, `RealChainCursor` and `RealMetagraphSource`; `Start`
--               has the constructor, and `Hotkey` the loading of the hotkey with main.py's
--               `_use_mock_submitter`.
--   Main        main.py: the builders, `_run` and `main`, which put the parts together; `Client` has
--               the options of the S3 client, and `Logging` the levels of the loggers.
--   Summary, Metrics    epoch_summary.py and metrics.py: their records.
-- `Validator.Ledger` composes the validator with the in-memory chain and says what a turn promises,
-- `Validator.Progress` follows a tick from its selection to its submission or to a stale summary, and
-- `Main.Whole` follows the process that signs from its start to its end.
-- `Errors` has the exceptions and results that carry them, `Decimal` the arithmetic of Python's
-- Decimal in its default context (28 digits, half even), and `Prelude` what all share.
--
-- State is passed explicitly. An operation of an object with state is a function of that state to a
-- new one beside a result; an exception is the result `raised e`, and the state beside it is the one
-- that the code leaves. The `Validator` record holds the attributes, the disk of the mirror, the
-- gauges and the state of the chain objects. That last one is a type parameter: the validator sees
-- the chain through the records `Submitter`, `ChainCursor` and `MetagraphSource`, as the code sees it
-- through its protocols. A `Tick` is what a turn of the loop finds outside, the bucket and the clock.
-- Arguments of the model are also the JSON decoder of a line, the check of a summary's fields, the
-- making of the S3 client from its options, which may raise, the server of the metrics, and, for the
-- real submitter, the calls of the SDK.
--
-- `Main.run` is `_run`: the S3 client, the chain objects, and then the loop. The sleep after a turn
-- takes the same interval each time, so that either no sleep raises (`Main.pause`) or the first one
-- does, and the loop ends with its exception after one turn (`Main.turns`, `Main.loop_end`).
--
-- Integers of Python are `ℤ`, and `ℕ` where the code has no negative ones (uids, weights, epochs,
-- blocks). Every loop is structural recursion on a list or on the number of rounds left, which the
-- code's bounds give; there is no fuel that could be too little. `latest_finalized_epoch` has one
-- round more than the way from the target to the floor is long, and the connection loop one for each
-- attempt that is left.
--
-- The settings of `Config` are texts of code points; the ids in them may be any integers, and the
-- validator starts from settings with no negative id (`with_natural_ids`). The chain objects of a
-- process are in memory or sign, by its `Kind`, and the type of their state depends on it.
--
-- Not modelled: the other log lines and their handlers, the insides of the S3 and SDK clients,
-- pydantic's checks of the summary, threads and clocks, errors of the file system, the exponent limits
-- of Decimal, its infinities and NaN, the digits of other scripts in a number's text, and Python's
-- limit of 4300 digits for an integer's text.
pub mod Prelude
pub mod Decimal
pub mod Errors
pub mod Metrics
pub mod Economics
pub mod Summary
pub mod Scoring
pub mod Adapter
pub mod Mirror
pub mod Connect
pub mod Submitter
pub mod Config
pub mod Validator
pub mod Main
