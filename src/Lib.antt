-- ===== src/Lib.antt =====
-- A model of the grafana-app-sdk: the code that an operator runs for the events of its resources.
--
-- An operator gets add, update and delete events for objects in an API server. An informer
-- controller hands each event to watchers and reconcilers, and what fails is tried again later. An
-- opinionated watcher or reconciler guards each object by a finalizer, so that no deletion is missed
-- while the operator is down: it changes the finalizers by JSON patches, reading the object again on
-- a conflict. A concurrent watcher hands the events of one object to one of several workers. Stores
-- read and write objects through a client, webhooks admit and convert them, and the runners of the
-- app package run the parts of an operator together.
--
-- Which file models which part:
-- - Resource/Object and Resource/Patch: resource/object.go and resource/client.go, the metadata and
--   the patch requests that the operator package uses.
-- - Resource/Client: the interface Client of resource/client.go. What answers its calls is a function
--   of the history of all calls; `IsClient` is the documented contract that a store can rely on.
-- - Resource/Store, Resource/TypedStore, Resource/SimpleStore and Resource/Updater:
--   resource/store.go, resource/typedstore.go (`typed_add` for Add, and so on),
--   resource/simplestore.go (`simple_create` for Add) and resource/updater.go. A store returns the
--   answer with the history of its calls. The loops of List over the pages have fuel, and
--   Store/Pages says how much is enough. `retry_update` counts the retries that are left, two at
--   the start, as in the code, and `none` is the empty object that `doUpdate` returns with an
--   error. Resource/Samples has a client in memory.
-- - Resource/Metadata: resource/metadata.go, values in annotations.
-- - App/Runner: MultiRunner of app/runner.go, App/DynamicRunner: DynamicMultiRunner, and
--   App/SingletonRunner: SingletonRunner. Their goroutines, with that of Run, are state machines
--   (`Step`).
-- - Health/Observer: health/observer.go, the rounds of health checks.
-- - K8s/Errors: k8s/errors.go, the error of a request.
-- - K8s/Client: k8s/client.go and k8s/gvclient.go, the client that implements resource.Client by HTTP
--   requests (`create_into` for CreateInto, `gv_get` for groupVersionClient.get, and so on). `Api`
--   answers each request from the history of all requests; `IsApi` is the documented behaviour of an
--   API server, on a network that loses nothing. Client/Refines relates the client to the contract
--   in Resource/Client, and Client/Refines/Stores puts stores over it. Client/Samples has a server
--   in memory.
-- - K8s/Watch: WatchResponse of k8s/gvclient.go as a state machine.
-- - K8s/Admission and K8s/Webhooks: the translation of admission requests in k8s/translation.go
--   and the handlers of k8s/webhooks.go (`handle_review` is what HandleValidateHTTP and
--   HandleMutateHTTP have in common); Webhooks/Convert has HandleConvertHTTP, with the message and
--   the objects of a response that a conversion review comes with. Controllers and converters are
--   functions.
-- - Operator/Io and Operator/Trace: the calls to code outside the operator package. The outside
--   world (`Env`) answers each call from the history of all calls, in any way it likes; a theorem
--   that needs more, such as an API server that applies JSON patches, says so in its hypotheses.
-- - Operator/Finalizers: operator/finalizers.go. `retry_on_conflict` is the loop that AddFinalizer,
--   ReplaceFinalizer and RemoveFinalizer have in common; its number is the attempts left, three at
--   the start, as in the code, so it is no fuel.
-- - Operator/Watcher: operator/opinionatedwatcher.go, with `add` and `update` for Add and Update.
-- - Operator/Action and Operator/Reconciler: operator/reconciler.go.
-- - Operator/Retry: the retry policies of operator/informer_controller.go, and
--   operator/retry_processor.go: Worker has the phases of processReady on one queue, Processor the
--   pool. `pop_ready` takes the length of the queue as fuel: each round takes one request out.
-- - Operator/ListMap: operator/util.go, the map of lists in which the controller keeps handlers and
--   retries. A limit below 1 of RemoveItems is 0.
-- - Operator/Events and Operator/Controller: operator/informer_controller.go. `World` is the
--   controller with the objects in memory and the calls so far; Controller/Handlers has the functions
--   that an informer calls (`informer_add_func` for informerAddFunc, and so on), and
--   Controller/Ticker has retryTicker. Here objects are known by pointers, since handlers and
--   retries share them. Controller/Stores compares the two places where retries can wait.
-- - Operator/EventQueue: the bufferedQueue of operator/informer_processor.go, with the turns of its
--   goroutines as a step relation (`Step`); once `run` has returned it delivers nothing.
-- - Operator/CustomCache: processDeltas and the handlers of operator/informer_customcache.go, over the
--   queues of Operator/EventQueue; CustomCache/Handlers has the calls that a listener makes.
-- - Operator/ConcurrentWatcher: operator/concurrentwatcher.go, over the queues of Operator/EventQueue.
-- - Operator/Samples and the modules named Tests: concrete inputs.
--
-- A `resource.Object` is passed by reference; an answer of the outside world holds the object
-- after the call. The finalizer list that Update reads at its start is the list at that time.
-- Objects are not nil, but for the arguments of `on_add` and `on_update` and the empty object of
-- UpdateObject, for which the answer of `GetInto` is a parameter. Times are numbers of nanoseconds
-- that do not wrap; the product in ExponentialBackoffRetryPolicy wraps as an int64 does.
--
-- An event, and a tick for one key, is one step: what another goroutine does to the retries while the
-- handlers of the event run is left out, and so is the memory that slices of a list map share. A
-- worker's receipt of an event and its handling are one step.
--
-- Not modelled: logging, tracing and metrics; the waits between attempts at a patch; the packages
-- outside the repository. Of the latter `apierrors.IsConflict`, `xxhash.Sum64`, `time.Now` and
-- the `%d` of `fmt` are parameters, and `container/heap`, `xsync.MapOf` and `buffer.RingGrowing` are
-- parameters with their documented behaviour (Operator/Retry/Heap, Operator/ListMap,
-- Operator/EventQueue). `json.Marshal`, `json.Unmarshal` and `jsonpatch` are parameters of
-- Resource/Metadata and K8s/Webhooks, and codecs, `encoding/json` and the API server are parameters of
-- K8s/Client. A client's patch and custom route requests, its labels and metrics, the registration of
-- informers, the start and end of a custom cache informer, the accessors and copy functions of
-- objects, the plugin router and the code generation have no model.
pub mod App
pub mod Base
pub mod Health
pub mod K8s
pub mod Resource
pub mod Operator
