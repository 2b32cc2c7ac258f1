-- ===== src/Lib.antt =====
-- control-station-lite: a control station runs approved scripts on target machines. Each target
-- runs an agent; the control station stages scripts there, and the owner of the target approves
-- them.
--
-- The program's parts and the files that model them:
--
-- Shared/ is control_station_lite/shared. Models.antt has the enumerations and records of
-- models.py; ScriptName.antt is validate_script_name of script_name.py, its two regular expressions
-- and the device names included; ScriptMeta.antt has the data and validators of script_meta.py.
-- Registration.antt is the bundle of registration.py, and SshCommands.antt the table of
-- ssh_commands.py. Validation.antt is _validation.py, which drops unknown fields from what is read.
--
-- Agent/ is control_station_lite/agent.
-- - Approvals/ is approvals.py. Data.antt has the records, Disk.antt the writes to the script
--   directories and the audit log, Manager.antt the methods of ApprovalsManager. A Host is the
--   memory of one manager, the disk and the audit log; a method takes the time and the host, and
--   returns its answer with the new host. Run.antt makes runs of requests of them; the other files
--   prove properties.
-- - Params.antt is validate_params of script_runner.py, Runner.antt the rest of that file.
-- - Processes/ is process_manager.py and state.py. Records.antt has the records and the operating
--   system as one call sees it, Manager.antt and Start.antt the methods of ProcessManager. start
--   calls get_state of the approvals and the checks of the runner, as run_script does.
-- - Api/ is main.py: Wire.antt has the state of the application, Jobs.antt the submission of a job,
--   App.antt the other endpoints behind the two middlewares. A request takes the moment, the header
--   and the state, and returns the answer with the new state.
-- - Lifecycle.antt is lifecycle.py, Gateway.antt is cli/cmd_ssh_gateway.py.
-- - LogStream/ is log_stream.py: Scan.antt has _tail_start_offset, Follow.antt the loop of tail_log
--   as rounds, each with the file as it finds it. The decoder of UTF-8 is a parameter. Policy.antt
--   is _policy_set_entry of cli/cmd_policy.py, and Cli/ is cli/cmd_approvals.py, whose commands
--   make a manager from the disk.
--
-- Server/ is control_station_lite/server.
-- - Auth/ is api/auth.py with auth/jwt.py and auth/dependencies.py. A call takes the committed
--   tables and returns those that it commits.
-- - Core/MagicPacket.antt is build_packet of core/magic_packet.py; Core/ScriptSync/ is
--   core/script_sync.py: Remote.antt has sync_script over the client, Sync.antt its parts and what
--   it comes to when every request succeeds; Core/Reconciler/ is one pass of
--   core/job_reconciler.py; Core/Registry/ is core/script_registry.py; Core/Builtin.antt is
--   core/builtin_scripts.py, Core/Crypto.antt core/crypto.py, Core/Ssh.antt the pool of
--   core/ssh.py, and Core/Errors.antt the exceptions of core/errors.py.
-- - Core/AgentClient.antt is core/agent_client.py. Its requests go to the model of the agent's API,
--   as far as they reach it.
-- - Api/Machines/ is api/machines.py: Register.antt the registration with its connection test, and
--   Machines.antt the access check, the lists and the bookmarks. Api/Jobs/ is api/jobs.py:
--   Submit.antt the submission, Running.antt the other endpoints; Api/Scripts.antt is
--   api/scripts.py, and Api/Status.antt has ping and agent-status of api/machines.py;
--   Api/Builtin.antt is api/builtin.py, and Api/Audit/ is api/audit.py with the log of
--   web/admin.py. They take the tables, and where they call it the agent of the machine, and return
--   what they commit.
-- - Web/ is web/: Login.antt has web/auth.py and web/deps.py, Users.antt the user management and
--   Admin.antt the scripts and machines of web/admin.py. Form.antt and Run.antt are run_submit of
--   web/machines.py, JobList.antt its list of jobs, Badges.antt the states of the scripts, and
--   Machines.antt its other pages and the dashboard. The pages call the functions that the
--   endpoints of Api/ call, and take and return the same tables. Cli.antt is cli.py.
--
-- Prelude.antt passes on the names of the libraries and of its children: Boolean tests, lists,
-- texts as lists of code points, dictionaries as association lists, results, and integers over the
-- native numbers.
--
-- Bounds and fuel: Python's integers have no bound, and times are natural numbers. The backwards
-- scan of a log runs on fuel, which is the position at which it starts: every round reads at least
-- one byte and moves the position down by as many. So does a reader who turns the pages of a list,
-- on one turn more than the list has rows. The loop that follows a log runs over the rounds that
-- are given. The client waits for an agent in four rounds, as the source does. A request that does
-- not reach the agent leaves it as it was; answers that are lost on their way back are not
-- modelled.
--
-- Parameters stand for what the program only calls: json and pydantic as a format that is read back
-- as it was written, MD5, SHA-256, password hashes and signed tokens, YAML, AES-GCM, asyncssh and
-- the sockets, the numbers that the database gives to new rows, the operating system with its
-- processes, and the numbers of Python with NaN and the conversions of int, float and str. What is
-- assumed of them stands in their records.
--
-- Not modelled: locks and the interleaving of threads inside a method, of requests to the control
-- station among themselves, failures of the disk, the texts of the pages and of their templates,
-- the events of a stream, the other command lines, configuration, migrations and services. Log
-- lines are left out, except for those of the audit.
pub mod Prelude
pub mod Shared
pub mod Agent
pub mod Server
