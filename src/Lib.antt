-- ===== src/Lib.antt =====
-- A model of cube-apiserver, the server of RancherCUBE: a login and token service and an API for
-- the infrastructures of a Kubernetes cluster, with two controllers that keep the objects of users
-- and infrastructures in the cluster.
--
-- The parts and the code that they model
--   Prelude, Base      what all parts share: Boolean tests, lists over native numbers, byte strings
--                      (Base/Text), signed machine integers (Base/Int), errors and results
--                      (Base/Errors), handlers with early returns over a history of calls
--                      (Base/Effect) and rules for what they add to it (Base/Trace)
--   Types              k8s/pkg/apis/cube/v1alpha1: User, Principal, Token, Infrastructure; the
--                      metadata of objects that the code reads, and the objects of Kubernetes that
--                      the controllers send, by the fields that the code sets (Rbac, Workloads)
--   Util               util/util.go: token values, expiry (Util/Clock, Util/Expiry), decimal text
--                      (Util/Decimal), the token of a request (Util/Request), CopyDir (Util/Files)
--   Controller/Common  controller/common.go: principals and the functions of the indexes
--   Controller/Queue   processNextWorkItem and runWorker of controller/infra_controller.go and
--                      controller/user_controller.go, once for both; Marked compares the items
--                      taken with those marked done
--   Controller/Watch   the event handlers of both controllers
--   Controller/Users   the reconciler of controller/user_controller.go: sync_handler is syncHandler,
--                      and find_principal, refresh_principal, find_role, find_binding and finish are
--                      its steps, in order; the objects that it makes are in Users/Objects, and
--                      where those come from that it goes on with in Users/Found
--   Controller/Infra   the reconciler of controller/infra_controller.go: infra_sync_handler is
--                      syncHandler, and find_deployment, check_deployment, scale_deployment and
--                      finish_infra are its steps; Dashboard, Longhorn and RancherVm are the create
--                      and update functions of the three kinds with the objects that they send, made
--                      of the calls in Bundles; Plan is what a kind promises to install; Notices has
--                      the handlers of the informers
--   Backend            backend/user.go (Caches, Tokens, Ensure), the definitions of resources
--                      (Crds: also backend/longhorn.go, backend/ranchervm.go),
--                      backend/provider/local/local_provider.go (Local),
--                      backend/insecure/insecure.go (Login), app/purge.go (Purge),
--                      backend/secret.go and the key functions of util/util.go (Rsa)
--   Infras             backend/infra.go (Operations, BaseInfo), backend/configmap.go and
--                      backend/common.go (ConfigMap), backend/service.go (Service); Reconciled sets
--                      the infrastructures that the API creates against their reconciler
--   Cluster            backend/cluster.go
--   Api                api/router.go (Retry is HandleError, Gate is TokenObtainMiddleware),
--                      api/insecure.go (Session), api/model.go (Resources, Schemas), api/infra.go
--                      (Infras), api/node.go and the first answers of api/cluster.go and
--                      api/baseinfo.go (Nodes)
--   App                app/apiserver.go: the configuration (Config), the definitions that the start
--                      deploys (Start)
--
-- How they interact. A login (Api/Session) creates a token by Backend/Login, which authenticates
-- the user by Backend/Local and stores the token with its expiry; the cookie names the token as
-- `name:key`. A later request passes Api/Gate, which finds the token by Backend/Tokens and makes the
-- request act as its user. Backend/Purge deletes tokens that have expired. The indexes of the
-- caches come from Controller/Common. Controller/Users makes the principal, the role and the
-- binding of a user, started by the queue and the event handlers. Api/Infras creates an
-- infrastructure by Infras, and Controller/Infra makes its deployments and services and writes its
-- status, which Infras reads again.
--
-- State and calls. Each part that calls the cluster has a type of events, one for each kind of
-- call, and an environment of answers. A run carries the history of its calls, newest first, and
-- the answer to a call is any function of the history up to that call; so nothing is assumed of
-- what other clients do in between, and a theorem that needs an answer has it as a hypothesis.
-- Go's (value, error) pairs are a Result where the value only counts without an error, and a pair
-- where the code uses both; a client's result beside an error is the zero object, as the generated
-- clients return it. A crash is a value (panicked, crashed, nil_deref). The variables that
-- requests share, the config map and the service, are fields of a state (Infras/Calls,
-- Api/Infras).
--
-- Bounds. Times and durations are int64 nanoseconds with their wrap-around. The buffer of
-- Int32ToString has 11 places, which is enough for every int32. HandleError runs at most 5 times. The
-- search for a service runs as many rounds as it is given; it adds 20 to its waiting time in each and
-- ends beyond 120000000000, so that 6000000001 are enough. A worker runs as many rounds as it is
-- given, and the theorem on it is about those runs that end. All other loops are over lists.
--
-- Parameters. The clock, owner references, errors.Wrap, bcrypt, RSA, base32, JSON, YAML, files,
-- quantities of resources, the work queue and the parsers of selectors and keys are code of other
-- libraries: each is an argument, with what the code relies on as fields of a record (Clock,
-- Owners, Wrapping), and an instance in the examples. An error keeps the format string of its
-- message, without arguments. Unicode is left to the parameter Texts; strings are bytes.
--
-- Not modelled: the wiring of informers, goroutines, channels and routes, logging, and the
-- generated clients.
pub mod Prelude
pub mod Base
pub mod Types
pub mod Util
pub mod Controller
pub mod Backend
pub mod Cluster
pub mod Infras
pub mod Api
pub mod App
