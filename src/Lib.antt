-- ===== src/Lib.antt =====
-- candi-plugin is a set of packages that a service built on github.com/golangid/candi takes in:
-- message brokers with the workers that consume from them (mqtt-broker, stomp-broker, gcppubsub,
-- amazonsqs), a small request protocol over TCP and UDP (p2p), HTTP servers (echo-rest,
-- fiber-rest), database adapters, a tracer and a circuit breaker. The packages do not call each
-- other: each has a Broker that candi asks for a publisher, and a worker or server that candi
-- builds from the handlers of the service's modules, serves, and shuts down. Two of them meet
-- through candi: a worker's trace is what the tracer's package makes it. The library models the
-- brokers and workers of the four message packages, p2p, the HTTP servers, the Oracle and ArangoDB
-- adapters, the Sentry tracer and the options of the circuit breaker.
--
-- Base passes on the names of the libraries and the helpers that all modules share. Go holds the
-- parts of Go that the packages use: text as lists of bytes (strings, bytes, strconv), maps as
-- association lists, panics (Go.Outcome), and code that acts on the world (Go.Act). Candi holds
-- the data of candi: WorkerHandler, ServiceModule, PublisherArgument, the events of the log, the
-- loop over the handler functions of a message, and what is handed to trace.Finish.
--
-- Mqtt is mqtt-broker/: Mqtt.Router is router.go (newRouteNode, addRoute, insertChild, match,
-- nextPath), with children for the abstract tree of segments that addRoute and match refine;
-- Mqtt.Broker is broker.go and publisher.go; Mqtt.Subscriber is subscriber.go and option.go, with
-- children about the handler that a topic comes to, about the construction as a table of filters,
-- about what happens to a message, and from a topic to the end of a trace; Mqtt.Serving has the
-- interleavings of Serve, Shutdown and the client's callbacks as a step relation.
-- P2p is p2p/: P2p.Types is types.go and option.go; P2p.Requests the format of a request;
-- P2p.Chunks the loops that write a message (context.go and sender/sender_tcp.go); P2p.Server
-- tcp.go and udp.go, a request at a time; P2p.Serving the loop of the TCP server and its Shutdown,
-- with its semaphore as a step relation, P2p.Datagrams that of the UDP server with the buffer that
-- its goroutines share; P2p.EndToEnd a sender and a server together.
-- Stomp is stomp-broker/, PubSub gcppubsub/ and Sqs amazonsqs/: in each, Broker is broker.go,
-- publisher.go and option.go, and Worker is consumer.go, with a child Mounting about its
-- construction and, but for Sqs, a child Delivery about processMessage. Stomp.EndToEnd and
-- PubSub.EndToEnd are about a message from PublishMessage to processMessage. Stomp.Serving and
-- PubSub.Serving have the interleavings of Serve, its goroutines and Shutdown as step relations.
-- Rest is the HTTP servers. Rest.Echo is echo-rest/: WrapHandler and URLParam, with children
-- Options (option.go), Errors (CustomHTTPErrorHandler), Middlewares and Logger (EchoWrapMiddleware
-- and EchoLoggerMiddleware of middleware.go) and Server (rest_server.go, and SetupRESTServer of
-- utils.go). Rest.Fiber is fiber-rest/: http_response_writer.go, with children Options
-- (option.go), Middlewares (middleware.go), Wrapper (fiber_http_wrapper.go), Writer (JSON and XML)
-- and Server (fiber_rest_server.go). Rest.Routes is the route_wrapper.go of both, over the calls
-- that a module makes when it is mounted, Rest.Modules the loop over the modules, and Rest.Servers
-- sets the two servers side by side. What an engine of Echo or Fiber does with what it is told is
-- not in the library: the engine is the list of what it was told. Sentry is
-- tracer/sentrytracer/sentry_tracer.go.
-- Oracle is oracledb-adaptor/oracledb.go and Arango arangodb-adapter/, Hystrix
-- circuit-breaker/hystrix_circuit_breaker.go. Brokers is about the four brokers and publishers
-- together.
--
-- The outside world is a log of events, the newest first. A call of a client, a tracer, a lock, a
-- wait group or a channel adds an event; what it answers, where the code looks at the answer, is a
-- function of the log so far, which is an argument, so that answers may change from call to call.
-- A handler function is such a function too, which answers an error, nil or a panic; one of p2p
-- says what it writes first, and goes on with what Write returns. A goroutine that handles one
-- message is run to its end; two of them meet only in the semaphores, which Stomp.Serving,
-- PubSub.Serving, P2p.Serving and P2p.Datagrams are about, in the wait group of the MQTT worker,
-- which Mqtt.Serving is about, and in the buffer of p2p/udp.go, which P2p.Datagrams is about.
-- Lines that the packages print while they load are left out, but those of the Oracle adapter.
-- What candi's trace.Finish does with its options, the functions that acknowledge and delete among
-- them, is a parameter; what the Pub/Sub worker relies on of it is a named hypothesis, which the
-- tracer of Sentry, whose Finish reads no option, does not meet.
--
-- Numbers are natural numbers: no count of the code comes near the bound of a machine word; the
-- sizes that p2p/option.go refuses are integers. Spaces are the six of ASCII. Loops are by
-- recursion on lists, but the loop that writes chunks, whose step is a size: it is on fuel. In
-- Write of p2p/context.go the fuel is the message's length and one, enough for each positive
-- size; in Send it is an argument. In the router the fuel is the length of the path or topic.
--
-- Not modelled: what the calls of package net do in accepting and closing; that a goroutine of the
-- UDP server may look at its slice of the buffer more than once; the buffer that the responses of
-- one TCP sender share; what Echo, Fiber and encoding/json do; the client that the circuit
-- breaker makes, which is the Hystrix library's; the dashboard of the task queue worker, which is
-- generated.
pub mod Base
pub mod Go
pub mod Candi
pub mod Mqtt
pub mod P2p
pub mod Stomp
pub mod PubSub
pub mod Sqs
pub mod Rest
pub mod Oracle
pub mod Arango
pub mod Hystrix
pub mod Brokers
pub mod Sentry
