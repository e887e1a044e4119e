-- ===== src/Routes/Table.antt =====
-- All routes, in the order of the modules in src/app.module.ts, and what a request reaches.
use task_scheduling_platform.Base.{String, Option, none, some, List, ◌++◌}
use task_scheduling_platform.Routes.Defs.{Params, Inputs, Call, Route, find_route}
use task_scheduling_platform.Routes.Accounts.{
  auth_routes, users_routes, notification_routes, audit_routes,
}
use task_scheduling_platform.Routes.Boards.{
  workspace_routes, dashboard_routes, project_routes, task_routes, subtask_routes, comment_routes,
}

unfoldable pub routes : List Route
unfolding notification_routes audit_routes users_routes auth_routes workspace_routes
    dashboard_routes project_routes task_routes subtask_routes comment_routes
routes =
    notification_routes
    ++ (audit_routes
        ++ (users_routes
            ++ (auth_routes
                ++ (workspace_routes
                    ++ (dashboard_routes
                        ++ (project_routes
                            ++ (task_routes ++ (subtask_routes ++ comment_routes))))))))

abbrev pub run_handler : Route → Option Inputs → Option Call
run_handler route none = none
run_handler route (some i) = some (route.handler i)

-- `admit` is what stands between a route and its method: the guards, and the global ValidationPipe,
-- which checks and transforms the body and the query; it gives the inputs of the method, or `none`
-- where the request is refused.
abbrev pub hand_over :
    (admit : Route → Inputs → Option Inputs) → Inputs → Option (Route × Params) → Option Call
hand_over admit r none = none
hand_over admit r (some (route, ps)) = run_handler route (admit route (record r { params = ps }))

-- The call that the method of a request makes.
unfoldable pub served :
    (admit : Route → Inputs → Option Inputs) (method : String) (url : List String)
    → Inputs
    → Option Call
unfolding find_route routes
served admit method url r = hand_over admit r (find_route method url routes)
