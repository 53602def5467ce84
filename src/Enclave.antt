-- ===== src/Enclave.antt =====
-- What a scheduler asks of the enclave, of its channels and of the status words (lib/enclave.h,
-- lib/channel.h, lib/ghost.h), as a list of effects, and the bound on CPU ids of lib/topology.h.
use ghost_userspace_o.Base.{ℕ}

abbrev pub max_cpus : ℕ
max_cpus = 512

pub data Effect : Type 0 where
  -- Channel::AssociateTask: task, CPU of the channel, barrier.
  associate_task : ℕ → ℕ → ℕ → Effect
  -- Agent::Ping of the agent on a CPU.
  ping : ℕ → Effect
  -- RunRequest::Open and Commit: CPU, target, target barrier, agent barrier.
  commit_txn : ℕ → ℕ → ℕ → ℕ → Effect
  -- RunRequest::LocalYield: CPU, agent barrier, flags.
  local_yield : ℕ → ℕ → ℕ → Effect
  -- Task::~Task: StatusWord::Free.
  free_status_word : ℕ → Effect

abbrev pub rtla_on_idle : ℕ
rtla_on_idle = 32
