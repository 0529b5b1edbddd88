-- ===== src/Controller/Infra/Longhorn.antt =====
-- controller/infra_controller.go: createLonghorn and updateLonghorn, with the objects they send.
pub mod Pods
use cube_apiserver.Prelude.{Str, str, true, none, some, List, [], ◌∷◌}
use cube_apiserver.Base.Errors.{Result}
use cube_apiserver.Base.Effect.{◌>>◌, run}
use cube_apiserver.Base.Int.{pos}
use cube_apiserver.Types.Meta.{Owners}
use cube_apiserver.Types.Infra.{InfraImages, Infrastructure}
use cube_apiserver.Types.Rbac.{PolicyRule, Role, Binding}
use cube_apiserver.Types.Workloads.{
  VolumeMount, Container, zero_container, host_path, Volume, PodSpec, zero_pod_spec, Deployment,
  DaemonSet, Service,
}
use cube_apiserver.Controller.Infra.Calls.{
  Event, service_account, cluster_role, cluster_role_binding, daemon_set, service, Env,
}
use cube_apiserver.Controller.Infra.Bundles.{
  app_label, any_verb, from_field, set_to, longhorn_namespace, owned_meta, ref_to_role,
  account_subject, in_namespace, make, make_deployment, make_main,
}
use cube_apiserver.Controller.Infra.Longhorn.Pods.{
  longhorn_account, longhorn_frontend, longhorn_manager, longhorn_deployer, longhorn_rules,
  manager_pods, deployer_pods, longhorn_ui_pods,
}

module _ (owners : Owners) (infra : Infrastructure) where
  abbrev pub longhorn_role : Role
  longhorn_role = record {
    metadata = owned_meta owners infra [] (str "longhorn-role") [];
    rules = longhorn_rules;
  }

  abbrev pub longhorn_binding : Binding
  longhorn_binding = record {
    metadata = owned_meta owners infra [] (str "longhorn-bind") [];
    role_ref = ref_to_role (str "ClusterRole") (str "longhorn-role");
    subjects = account_subject longhorn_namespace longhorn_account ∷ [];
  }

  abbrev pub longhorn_daemons : DaemonSet
  longhorn_daemons = record {
    metadata =
        owned_meta owners infra longhorn_namespace longhorn_manager (app_label longhorn_manager);
    selector = app_label longhorn_manager;
    template_labels = app_label longhorn_manager;
    template = manager_pods infra.spec.images;
  }

  abbrev pub longhorn_backend_service : Service
  longhorn_backend_service = record {
    metadata =
        owned_meta owners infra longhorn_namespace (str "longhorn-backend")
          (app_label longhorn_manager);
    ports = record { name = []; port = 9500; target_port = 9500 } ∷ [];
    selector = app_label longhorn_manager;
    service_type = [];
  }

  abbrev pub longhorn_ui_service : Service
  longhorn_ui_service = record {
    metadata =
        owned_meta owners infra longhorn_namespace longhorn_frontend (app_label longhorn_frontend);
    ports = record { name = []; port = 9091; target_port = 8000 } ∷ [];
    selector = app_label longhorn_frontend;
    service_type = str "NodePort";
  }

  abbrev pub longhorn_driver : Deployment
  longhorn_driver = record {
    metadata = owned_meta owners infra longhorn_namespace longhorn_deployer [];
    spec = record {
      replicas = infra.spec.replicas;
      revision_history_limit = none;
      selector = app_label longhorn_deployer;
      template_labels = app_label longhorn_deployer;
      template = deployer_pods infra.spec.images;
    };
    available_replicas = pos 0;
  }

  abbrev pub longhorn_ui : Deployment
  longhorn_ui = record {
    metadata =
        owned_meta owners infra longhorn_namespace longhorn_frontend (app_label longhorn_frontend);
    spec = record {
      replicas = infra.spec.replicas;
      revision_history_limit = none;
      selector = app_label longhorn_frontend;
      template_labels = app_label longhorn_frontend;
      template = longhorn_ui_pods infra.spec.images;
    };
    available_replicas = pos 0;
  }

module _ (owners : Owners) (env : Env) (infra : Infrastructure) where
  -- createLonghorn
  unfoldable pub create_longhorn : List Event → Result Deployment × List Event
  create_longhorn h =
      run
        (do
          in_namespace env longhorn_namespace
          make env longhorn_namespace
              (service_account (owned_meta owners infra longhorn_namespace longhorn_account []))
          make env [] (cluster_role (longhorn_role owners infra))
          make env [] (cluster_role_binding (longhorn_binding owners infra))
          make env longhorn_namespace (daemon_set (longhorn_daemons owners infra))
          make env longhorn_namespace (service (longhorn_backend_service owners infra))
          make env longhorn_namespace (service (longhorn_ui_service owners infra))
          make_deployment env longhorn_namespace (longhorn_driver owners infra)
          make_main env longhorn_namespace (longhorn_ui owners infra))
        h

  -- updateLonghorn, which creates the driver again
  unfoldable pub update_longhorn : List Event → Result Deployment × List Event
  update_longhorn h =
      run
        (do
          in_namespace env longhorn_namespace
          make_main env longhorn_namespace (longhorn_driver owners infra))
        h
