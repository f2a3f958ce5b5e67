-- ===== src/Host/Store/Answers.antt =====
-- The host's two answers to a transfer name its artifact.
use rust_plugin_sdk.Prelude.{◌≡◌, none, some, arith, string_eq}
use rust_plugin_sdk.Protocol.{Payload, PluginArtifactId}
use rust_plugin_sdk.Error.{ok}
use rust_plugin_sdk.Host.Output.{StoredArtifact}
use rust_plugin_sdk.Host.Store.Defs.{check_accepted, check_stored}

pub accepts_same :
    (id : PluginArtifactId) (answer : Payload)
    → check_accepted id answer ≡ ok tt
    → answer ≡ Payload.artifact_accepted (some id)
accepts_same id Payload.ready e = ground (arith, e)
accepts_same id Payload.shutdown_acknowledged e = ground (arith, e)
accepts_same id (Payload.host_hello _) e = ground (arith, e)
accepts_same id (Payload.plugin_hello _) e = ground (arith, e)
accepts_same id (Payload.start_job _) e = ground (arith, e)
accepts_same id (Payload.job_accepted _) e = ground (arith, e)
accepts_same id (Payload.cancel_job_acknowledged _) e = ground (arith, e)
accepts_same id (Payload.job_update _) e = ground (arith, e)
accepts_same id (Payload.host_call _) e = ground (arith, e)
accepts_same id (Payload.host_result _) e = ground (arith, e)
accepts_same id (Payload.log _) e = ground (arith, e)
accepts_same id (Payload.heartbeat _) e = ground (arith, e)
accepts_same id (Payload.shutdown _) e = ground (arith, e)
accepts_same id (Payload.protocol_error _) e = ground (arith, e)
accepts_same id (Payload.artifact_start _) e = ground (arith, e)
accepts_same id (Payload.artifact_complete _) e = ground (arith, e)
accepts_same id (Payload.artifact_stored _) e = ground (arith, e)
accepts_same id (Payload.artifact_chunk _) e = ground (arith, e)
accepts_same id (Payload.cancel_job _) e = ground (arith, e)
accepts_same id (Payload.artifact_accepted none) e = ground (arith, e)
accepts_same id (Payload.artifact_accepted (some accepted)) e =
    ground (arith, e, string_eq.beq_iff accepted.value id.value)

pub stores_same :
    (id : PluginArtifactId) (artifact stored : StoredArtifact) (answer : Payload)
    → check_stored id artifact answer ≡ ok stored
    → (answer ≡ Payload.artifact_stored (some id)) × (stored ≡ artifact)
stores_same id artifact stored Payload.ready e = ground (arith, e)
stores_same id artifact stored Payload.shutdown_acknowledged e = ground (arith, e)
stores_same id artifact stored (Payload.host_hello _) e = ground (arith, e)
stores_same id artifact stored (Payload.plugin_hello _) e = ground (arith, e)
stores_same id artifact stored (Payload.start_job _) e = ground (arith, e)
stores_same id artifact stored (Payload.job_accepted _) e = ground (arith, e)
stores_same id artifact stored (Payload.cancel_job_acknowledged _) e = ground (arith, e)
stores_same id artifact stored (Payload.job_update _) e = ground (arith, e)
stores_same id artifact stored (Payload.host_call _) e = ground (arith, e)
stores_same id artifact stored (Payload.host_result _) e = ground (arith, e)
stores_same id artifact stored (Payload.log _) e = ground (arith, e)
stores_same id artifact stored (Payload.heartbeat _) e = ground (arith, e)
stores_same id artifact stored (Payload.shutdown _) e = ground (arith, e)
stores_same id artifact stored (Payload.protocol_error _) e = ground (arith, e)
stores_same id artifact stored (Payload.artifact_start _) e = ground (arith, e)
stores_same id artifact stored (Payload.artifact_accepted _) e = ground (arith, e)
stores_same id artifact stored (Payload.artifact_complete _) e = ground (arith, e)
stores_same id artifact stored (Payload.artifact_chunk _) e = ground (arith, e)
stores_same id artifact stored (Payload.cancel_job _) e = ground (arith, e)
stores_same id artifact stored (Payload.artifact_stored none) e = ground (arith, e)
stores_same id artifact stored (Payload.artifact_stored (some named)) e =
    ground (arith, e, string_eq.beq_iff named.value id.value)
