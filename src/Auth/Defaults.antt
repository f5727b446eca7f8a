-- ===== src/Auth/Defaults.antt =====
-- internal/auth/rbac.go: the permission constants and `DefaultRoleMap`.
use nova_nas.Base.{List, [], ◌∷◌}
use nova_nas.Auth.{Permission, RoleMap}

abbrev pub perm_storage_read : Permission
perm_storage_read = "nova:storage:read"

abbrev pub perm_storage_write : Permission
perm_storage_write = "nova:storage:write"

abbrev pub perm_network_read : Permission
perm_network_read = "nova:network:read"

abbrev pub perm_network_write : Permission
perm_network_write = "nova:network:write"

abbrev pub perm_system_read : Permission
perm_system_read = "nova:system:read"

abbrev pub perm_system_write : Permission
perm_system_write = "nova:system:write"

abbrev pub perm_system_admin : Permission
perm_system_admin = "nova:system:admin"

abbrev pub perm_audit_read : Permission
perm_audit_read = "nova:audit:read"

abbrev pub perm_scheduler_read : Permission
perm_scheduler_read = "nova:scheduler:read"

abbrev pub perm_scheduler_write : Permission
perm_scheduler_write = "nova:scheduler:write"

abbrev pub perm_krb5_read : Permission
perm_krb5_read = "nova:krb5:read"

abbrev pub perm_krb5_write : Permission
perm_krb5_write = "nova:krb5:write"

abbrev pub perm_notifications_read : Permission
perm_notifications_read = "nova:notifications:read"

abbrev pub perm_notifications_write : Permission
perm_notifications_write = "nova:notifications:write"

abbrev pub perm_notifications_events_read : Permission
perm_notifications_events_read = "nova:notifications.events:read"

abbrev pub perm_notifications_events_write : Permission
perm_notifications_events_write = "nova:notifications.events:write"

abbrev pub perm_pool_encryption_read : Permission
perm_pool_encryption_read = "nova:encryption:read"

abbrev pub perm_pool_encryption_write : Permission
perm_pool_encryption_write = "nova:encryption:write"

abbrev pub perm_pool_encryption_recover : Permission
perm_pool_encryption_recover = "nova:encryption:recover"

abbrev pub perm_replication_read : Permission
perm_replication_read = "nova:replication:read"

abbrev pub perm_replication_write : Permission
perm_replication_write = "nova:replication:write"

abbrev pub perm_scrub_read : Permission
perm_scrub_read = "nova:scrub:read"

abbrev pub perm_scrub_write : Permission
perm_scrub_write = "nova:scrub:write"

abbrev pub perm_alerts_read : Permission
perm_alerts_read = "nova:alerts:read"

abbrev pub perm_alerts_write : Permission
perm_alerts_write = "nova:alerts:write"

abbrev pub perm_logs_read : Permission
perm_logs_read = "nova:logs:read"

abbrev pub perm_sessions_read : Permission
perm_sessions_read = "nova:sessions:read"

abbrev pub perm_sessions_admin : Permission
perm_sessions_admin = "nova:sessions:admin"

abbrev pub perm_vm_read : Permission
perm_vm_read = "nova:vm:read"

abbrev pub perm_vm_write : Permission
perm_vm_write = "nova:vm:write"

abbrev pub perm_workloads_read : Permission
perm_workloads_read = "nova:workloads:read"

abbrev pub perm_workloads_write : Permission
perm_workloads_write = "nova:workloads:write"

abbrev pub perm_plugins_read : Permission
perm_plugins_read = "nova:plugins:read"

abbrev pub perm_plugins_write : Permission
perm_plugins_write = "nova:plugins:write"

abbrev pub perm_plugins_admin : Permission
perm_plugins_admin = "nova:plugins:admin"

abbrev pub perm_marketplaces_read : Permission
perm_marketplaces_read = "nova:marketplaces:read"

abbrev pub perm_marketplaces_admin : Permission
perm_marketplaces_admin = "nova:marketplaces:admin"

unfoldable pub nova_admin_perms : List Permission
nova_admin_perms =
    perm_storage_read ∷ perm_storage_write ∷ perm_network_read ∷ perm_network_write
    ∷ perm_system_read ∷ perm_system_write ∷ perm_system_admin ∷ perm_audit_read
    ∷ perm_scheduler_read ∷ perm_scheduler_write ∷ perm_krb5_read ∷ perm_krb5_write
    ∷ perm_notifications_read ∷ perm_notifications_write ∷ perm_notifications_events_read
    ∷ perm_notifications_events_write ∷ perm_pool_encryption_read ∷ perm_pool_encryption_write
    ∷ perm_pool_encryption_recover ∷ perm_replication_read ∷ perm_replication_write
    ∷ perm_scrub_read ∷ perm_scrub_write ∷ perm_alerts_read ∷ perm_alerts_write ∷ perm_logs_read
    ∷ perm_sessions_read ∷ perm_sessions_admin ∷ perm_vm_read ∷ perm_vm_write ∷ perm_workloads_read
    ∷ perm_workloads_write ∷ perm_plugins_read ∷ perm_plugins_write ∷ perm_plugins_admin
    ∷ perm_marketplaces_read ∷ perm_marketplaces_admin ∷ []

unfoldable pub nova_operator_perms : List Permission
nova_operator_perms =
    perm_storage_read ∷ perm_storage_write ∷ perm_network_read ∷ perm_system_read ∷ perm_audit_read
    ∷ perm_scheduler_read ∷ perm_scheduler_write ∷ perm_notifications_read
    ∷ perm_notifications_events_read ∷ perm_notifications_events_write ∷ perm_pool_encryption_read
    ∷ perm_pool_encryption_write ∷ perm_replication_read ∷ perm_replication_write ∷ perm_scrub_read
    ∷ perm_scrub_write ∷ perm_alerts_read ∷ perm_alerts_write ∷ perm_logs_read ∷ perm_sessions_read
    ∷ perm_vm_read ∷ perm_vm_write ∷ perm_workloads_read ∷ perm_workloads_write ∷ perm_plugins_read
    ∷ perm_marketplaces_read ∷ []

unfoldable pub nova_viewer_perms : List Permission
nova_viewer_perms =
    perm_storage_read ∷ perm_network_read ∷ perm_system_read ∷ perm_scheduler_read
    ∷ perm_replication_read ∷ perm_scrub_read ∷ perm_alerts_read ∷ perm_sessions_read ∷ perm_vm_read
    ∷ perm_workloads_read ∷ perm_plugins_read ∷ perm_marketplaces_read
    ∷ perm_notifications_events_read ∷ perm_notifications_events_write ∷ []

unfoldable pub nova_system_admin_perms : List Permission
nova_system_admin_perms =
    perm_storage_read ∷ perm_network_read ∷ perm_network_write ∷ perm_system_read
    ∷ perm_system_write ∷ perm_system_admin ∷ []

abbrev pub default_role_map : RoleMap
default_role_map =
    ("nova-admin", nova_admin_perms)
    ∷ ("nova-operator", nova_operator_perms)
    ∷ ("nova-viewer", nova_viewer_perms)
    ∷ ("nova-system-admin", nova_system_admin_perms)
    ∷ []
