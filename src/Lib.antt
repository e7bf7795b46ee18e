-- ===== src/Lib.antt =====
-- Verification of dynabridge, a C++ library that binds native functions to dynamic languages and to
-- a framed RPC protocol.
--
-- A client's call goes through the converters to dynamic values, `encode_request_values`, a
-- transport, `router::dispatch`, the export dispatch over the declared candidates, the native
-- callable, and back through `encode_response` and `decode_response`. The files follow the parts.
--
-- dynabridge/backends/rpc.h
--   Rpc/Value.antt      `value`, a record of its fields
--   Rpc/Writer.antt     `writer`; Rpc/Reader.antt `reader`, in a monad whose fault is a read outside
--                       the frame
--   Rpc/Codec.antt      `encode_value`, `encoded_size`, `checked_add`, `decode_value`
--   Rpc/Frame.antt      `encode_request` to `decode_request`
--   Rpc/Response.antt   `encode_response` to `decode_response`
--   Rpc/Symbol.antt     `symbol_id`
--   Rpc/Router.antt     `router`, the loopback transport and `invoke_impl`
--   Rpc/Convert.antt    `rpc_backend::converter`
--   Rpc/Bind.antt       the converters as arguments of the export dispatch
-- dynabridge/export_callable.h
--   Export/Plan.antt      `export_argument_plan`, `export_candidate_plan`, `accepted_export_arguments`
--   Export/Dispatch.antt  `export_overload_candidate`, `export_overload_dispatch`
--   Export/Binder.antt    `export_callable_binder`, `export_member_callable_binder`
-- dynabridge/optional.h
--   Optional.antt       `optional` and its storage
-- dynabridge/traits.h
--   Native.antt         `export_native_storage`
-- dynabridge/backends/python_converters.h
--   Python.antt         `from` of the converters of `int` and `unsigned`
--   Python/Convert.antt `to` of all converters, and `from` of the one of `std::string`
-- dynabridge/backends/python.h
--   Python/State.antt        the references that the C++ code holds and the error indicator
--   Python/Ref.antt          `object_ref`, and the `define` of modules and classes
--   Python/Error.antt        `python_error`
--   Python/Call.antt         `call_vector`, `call_tuple`, `invoke_impl`
--   Python/Entry.antt        the entries of callable objects, from Python to C++
--   Python/Constructor.antt  `class_constructor_holder` and `export_type_vectorcall`
--   Python/Instance.antt     `export_instance_object` and its life
--   Python/Storage.antt      `export_instance_storage` and the size of the class
--   Python/Define.antt       `define_impl`, `define_class_impl`, `define_constructor_impl` and
--                            `register_all` of a class (dynabridge/export_core.h, export_generate.h)
--   Python/Handle.antt       `import_impl`, `make_export_object_impl`, `export_instance`
--   Python/Import.antt       `invoke` of imported functions, members and constructors
--                            (dynabridge/backend_base.h, bridge_arg.h, import_callable.h)
-- dynabridge/backend_base.h
--   Registry.antt       `export_class_registry`
-- dynabridge/backends/napi.h
--   Napi/Construction.antt   `class_constructor` and `make_export_object_impl`
--   Napi/Callback.antt       the callbacks of functions, members and overloads; `call`, `invoke_impl`
--   Napi/Reference.antt      `constructor_reference` and the hook of the environment
--   Napi/Context.antt        `object_t`, and `context_t` with its caches
--   Napi/Unwrap.antt         the objects that callables are given: `checked_unwrap_export_object`
--   Napi/Define.antt         `define_impl`, `define_class_impl` and the holders of functions
-- dynabridge/backends/napi_converters.h
--   Napi/Number.antt         the converters of `int`, `unsigned` and `std::string`
-- dynabridge/async.h
--   Async.antt          `operation_state`, its threads and the outcomes of `start`
--   Async/Invocation.antt  `static_invocation` and `invocation`, their moves and starts
-- dynabridge/extensions/flux_foundry/uv_executor.h
--   Executor.antt       `uv_executor`: dispatch, close, and the turns of the loop
-- dynabridge/extensions/flux_foundry/python_interpreter_executor.h
--   Worker.antt         `python_interpreter_executor`: dispatch, shutdown, and the steps of `run`
-- dynabridge/error_policy.h
--   Raise.antt          `DYNABRIDGE_RAISE` in a build with exceptions
-- Prelude.antt holds what all of them share, and Tests.antt the theorems at concrete inputs.
--
-- Numbers are the native ones; a byte is a number below 256, a 64-bit number one below 2 ^ 64, and
-- `std::size_t` has 64 bits. A `double` is its representation. Loops run over a list or a counter,
-- so no function runs on fuel; the turns of the loop and the actions of threads are counted, and
-- theorems bound them. Where a value is moved from, the model says what is left of it: a string
-- is empty. The conversions of one exported call are in the order of the arguments, an order that C++
-- leaves open; for an imported call on the Python backend the order is an argument, and each argument
-- is lowered in front of those that follow it or behind them. The order in which `std::deque::clear`
-- destroys is an argument of the Python executor. Memory is not exhausted.
--
-- A binder of the router is a library binder, given by its candidates, or code of another origin,
-- given by a function. The native callables are parameters, which may raise.
--
-- CPython is a parameter: what calls of objects, finalizers, allocations and the functions on
-- integers come to are arguments of the definitions. Of a function of its C API that takes or
-- gives a reference the model counts that reference, as the documentation of the function says:
-- new, borrowed or stolen. The code of a thread runs with the interpreter's lock held.
--
-- Node-API is a parameter too: each status that a function of it returns is an argument, and
-- whether it leaves an exception pending is written as its documentation says.
--
-- Not modelled: the slots of the types that the Python backend makes; the generators, which are
-- macros, and the choice between overloads of the import side, which is overload resolution of C++;
-- builds without exceptions, in which a raise aborts.
pub mod Prelude
pub mod Raise
pub mod Registry
pub mod Rpc
pub mod Export
pub mod Optional
pub mod Native
pub mod Python
pub mod Async
pub mod Executor
pub mod Tests
pub mod Worker
pub mod Napi
