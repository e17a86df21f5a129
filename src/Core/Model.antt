-- ===== src/Core/Model.antt =====
-- internal/core: the records that the panel and the worker exchange and store. A `time.Time` is the
-- number of seconds after the zero time, so `IsZero` is a test for 0.
use panel4wp.Prelude.{ℕ, Bool, Option, List, Text, codes}
use panel4wp.Prelude.Int.{ℤ}
use panel4wp.Float.{Float}

abbrev pub Time : Type 0
Time = ℕ

-- type Status string, and its constants
abbrev pub Status : Type 0
Status = Text

abbrev pub creating : Status
creating = codes "creating"

abbrev pub running : Status
running = codes "running"

abbrev pub stopped : Status
stopped = codes "stopped"

abbrev pub failed : Status
failed = codes "failed"

abbrev pub deleting : Status
deleting = codes "deleting"

abbrev pub unhealthy : Status
unhealthy = codes "unhealthy"

pub record Backup : Type 0 where
  pub id : Text
  pub created_at : Time
  pub source : Text

abbrev pub source_manual : Text
source_manual = codes "manual"

abbrev pub source_scheduled : Text
source_scheduled = codes "scheduled"

abbrev pub source_safety : Text
source_safety = codes "safety"

pub record BackupPolicy : Type 0 where
  pub enabled : Bool
  pub interval_hours : ℤ
  pub retention : ℤ
  pub next_run_at : Time
  pub last_attempt_at : Time
  pub last_success_at : Time
  pub last_error : Text

-- A durable receipt.
pub record Operation : Type 0 where
  pub id : Text
  pub kind : Text
  pub state : Text
  pub started_at : Time
  pub finished_at : Time
  pub error : Text
  pub backup : Option Backup
  pub admission_rejected : Bool

pub record Site : Type 0 where
  pub id : Text
  pub domain : Text
  pub title : Text
  pub admin_email : Text
  pub memory_mb : ℤ
  pub cpus : Float
  pub status : Status
  pub error : Text
  pub created_at : Time
  pub backups : List Backup
  pub backup_policy : BackupPolicy
  pub mail_enabled : Bool
  pub operation : Option Operation
  pub health_error : Text
  pub health_checked_at : Time

-- Limits of each of a site's two containers.
pub record Resources : Type 0 where
  pub memory_mb : ℤ
  pub cpus : Float

pub record ResourcePlan : Type 0 where
  pub id : Text
  pub name : Text
  pub resources : Resources

pub record HostCapacity : Type 0 where
  pub other_memory_bytes : ℤ
  pub other_cpus : Float
  pub cpus : Float
  pub memory_bytes : ℤ
  pub reserved_cpus : Float
  pub reserved_memory_bytes : ℤ
  pub allocated_cpus : Float
  pub allocated_memory_bytes : ℤ
  pub docker_disk_free_bytes : ℤ
  pub data_disk_free_bytes : ℤ

pub record SiteRuntime : Type 0 where
  pub status : Status
  pub detail : Text
  pub operation : Option Operation
  pub resources : Option Resources

pub record StorageCapability : Type 0 where
  pub wordpress_filesystem : Text
  pub database_filesystem : Text
  pub same_filesystem : Bool
  pub project_accounting : Bool
  pub project_enforcement : Bool
  pub reason : Text
